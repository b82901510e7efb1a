-- ===== src/Download/Writer/Bytes.antt =====
-- The bytes that the files have after a run of the writer of babel/src/download_job.rs.
use blockvisor.Common.{
  ℕ, zero, suc, ◌+◌, ◌≤◌, ◌<◌, ◌≡◌, refl, sym, ap, subst, ◌≢◌, ◌⊎◌, inl, inr, Option, none, some,
  List, [], ◌∷◌, ◌++◌, arith, length, get_elem?, All, Bool-cases,
}
use native.Mathlib.Decide.{dec_lt}
use blockvisor.Archive.{FilePath, Chunk}
use blockvisor.Archive.Files.{
  Files, same_path, same_path_refl, same_path→eq, overwrite-new, overwrite-old, byte_at, Holds,
  Holds-append,
}
use blockvisor.Archive.Bytes.{Location, range}
use blockvisor.Download.{ChunkData, file_part, end_of_chunk}
use blockvisor.Download.Destinations.Sent.{where_written, what_written}
use blockvisor.Download.Writer.{Writer, Moment, create_file, run_writer, new_writer}
use blockvisor.Download.Writer.Step.{contents, written, replay, Smooth}
use blockvisor.Download.Writer.Refines.{messages_of, run_writer-refines}

abbrev pub Apart : Location → List Location → Type 0
Apart place places = All (λ (other : Location). place ≢ other) places

-- No place is written twice.
abbrev pub AllDifferent : List Location → Type 0
AllDifferent [] = Unit {0}
AllDifferent (place ∷ places) = Apart place places × AllDifferent places

range-Apart :
    (path : FilePath) (at pos size : ℕ)
    → Apart (path, at) (range path pos size)
    → (at < pos) ⊎ (pos + size ≤ at)
range-Apart path at pos zero apart = elim (dec_lt at pos) [
  | yes h ↦ inl h
  | no h ↦ inr (omega arith)
]
range-Apart path at pos (suc size) (differs, apart) =
    elim (range-Apart path at (pos + 1) size apart) [
      | inr h ↦ inr (omega arith)
      | inl h ↦ elim (dec_lt at pos) [
        | yes before ↦ inl before
        | no behind ↦
            let same : at ≡ pos = omega arith in absurd (differs (ap (λ (n : ℕ). (path, n)) same))
      ]
    ]

Apart-append :
    (place : Location) (xs ys : List Location)
    → Apart place (xs ++ ys)
    → Apart place xs × Apart place ys
Apart-append place [] ys h = (tt, h)
Apart-append place (x ∷ xs) ys (p, h) = let (a, b) = Apart-append place xs ys h in ((p, a), b)

AllDifferent-append :
    (xs ys : List Location)
    → AllDifferent (xs ++ ys)
    → All (λ (x : Location). Apart x ys) xs × AllDifferent ys
AllDifferent-append [] ys d = (tt, d)
AllDifferent-append (x ∷ xs) ys (apart, d) =
    let (rest, d') = AllDifferent-append xs ys d in (((Apart-append x xs ys apart).1, rest), d')

contents-found :
    (old : Option (List ℕ)) (at b : ℕ)
    → (elim old [ none ↦ none | some file ↦ get_elem? file at ]) ≡ some b
    → get_elem? (contents old) at ≡ some b
contents-found none at b h = absurd (ground arith)
contents-found (some file) at b h = h

byte_at-create_file :
    (old : Option (List ℕ)) (path : FilePath) (files : Files) (place : Location) (b : ℕ)
    → files path ≡ old
    → byte_at files place ≡ some b
    → byte_at (create_file old path files) place ≡ some b
byte_at-create_file (some file) path files place b e h = h
byte_at-create_file none path files (other, at) b e h = elim (Bool-cases (same_path path other)) [
  | inr differs ↦ rw (differs, byte_at) h
  | inl same ↦
      let found : byte_at files (path, at) ≡ some b =
        subst (λ p. byte_at files (p, at) ≡ some b) (sym (same_path→eq path other same)) h in
      absurd (ground (arith, e, found))
]

-- A place that a part does not touch keeps its byte.
byte_at-written :
    (path : FilePath) (pos : ℕ) (bytes : List ℕ) (files : Files) (place : Location) (b : ℕ)
    → byte_at files place ≡ some b
    → Apart place (range path pos (length bytes))
    → byte_at (written path pos bytes files) place ≡ some b
byte_at-written path pos [] files place b h apart =
    byte_at-create_file (files path) path files place b refl h
byte_at-written path pos (byte ∷ bytes) files (other, at) b h apart =
    elim (Bool-cases (same_path path other)) [
      | inr differs ↦ rw (differs, byte_at) h
      | inl same ↦
          let e : path ≡ other = same_path→eq path other same in
          let outside =
            range-Apart path at pos (length (byte ∷ bytes))
              (subst (λ p. Apart (p, at) (range path pos (length (byte ∷ bytes)))) (sym e) apart) in
          let found =
            contents-found (files path) at b
              (subst (λ p. byte_at files (p, at) ≡ some b) (sym e) h) in
          rw (same, byte_at)
            (overwrite-old (contents (files path)) (byte ∷ bytes) pos at b found outside)
    ]

-- The places of a part have its bytes.
range-Holds :
    (files : Files) (path : FilePath) (pos : ℕ) (bytes : List ℕ)
    → ((i b : ℕ) → get_elem? bytes i ≡ some b → byte_at files (path, pos + i) ≡ some b)
    → Holds files (range path pos (length bytes)) bytes
range-Holds files path pos [] h = tt
range-Holds files path pos (byte ∷ bytes) h = (
  subst (λ n. byte_at files (path, n) ≡ some byte) (omega arith) (h 0 byte refl),
  range-Holds files path (pos + 1) bytes
      (λ i b e. subst (λ n. byte_at files (path, n) ≡ some b) (omega arith) (h (suc i) b e)),
)

written-Holds :
    (path : FilePath) (pos : ℕ) (bytes : List ℕ) (files : Files)
    → Holds (written path pos bytes files) (range path pos (length bytes)) bytes
written-Holds path pos [] files = tt
written-Holds path pos (byte ∷ bytes) files =
    range-Holds (written path pos (byte ∷ bytes) files) path pos (byte ∷ bytes) (λ i b e.
      rw (same_path_refl path, byte_at)
        (overwrite-new (contents (files path)) (byte ∷ bytes) pos i b e))

replay-keeps :
    (messages : List ChunkData) (files : Files) (place : Location) (b : ℕ)
    → byte_at files place ≡ some b
    → Apart place (where_written messages)
    → byte_at (replay messages files) place ≡ some b
replay-keeps [] files place b h apart = h
replay-keeps (file_part path pos bytes ∷ messages) files place b h apart =
    let (here, later) =
      Apart-append place (range path pos (length bytes)) (where_written messages) apart in
    replay-keeps messages (written path pos bytes files) place b
      (byte_at-written path pos bytes files place b h here) later
replay-keeps (end_of_chunk chunk ∷ messages) files place b h apart =
    replay-keeps messages files place b h apart

replay-keeps_everywhere :
    (messages : List ChunkData) (files : Files) (places : List Location) (bytes : List ℕ)
    → Holds files places bytes
    → All (λ (place : Location). Apart place (where_written messages)) places
    → Holds (replay messages files) places bytes
replay-keeps_everywhere messages files [] [] h apart = tt
replay-keeps_everywhere messages files [] (b ∷ bytes) h apart = h
replay-keeps_everywhere messages files (p ∷ places) [] h apart = h
replay-keeps_everywhere messages files (p ∷ places) (b ∷ bytes) (e, h) (a, apart) = (
  replay-keeps messages files p b e a,
  replay-keeps_everywhere messages files places bytes h apart,
)

pub replay-Holds :
    (messages : List ChunkData) (files : Files)
    → AllDifferent (where_written messages)
    → Holds (replay messages files) (where_written messages) (what_written messages)
replay-Holds [] files d = tt
replay-Holds (file_part path pos bytes ∷ messages) files d =
    let (apart, d') =
      AllDifferent-append (range path pos (length bytes)) (where_written messages) d in
    let files' = written path pos bytes files in
    Holds-append (replay messages files') (range path pos (length bytes)) (where_written messages)
      bytes (what_written messages)
      (replay-keeps_everywhere messages files' (range path pos (length bytes)) bytes
        (written-Holds path pos bytes files) apart)
      (replay-Holds messages files' d')
replay-Holds (end_of_chunk chunk ∷ messages) files d = replay-Holds messages files d

-- If no place is sent twice and each message is handled without an error of the system, the run of
-- the writer ends without an error, and then each place that was sent has, in the files, the byte that
-- was sent for it: in whatever order the parts of several chunks come, and however many files may be
-- open at a time.
pub run_writer-Holds :
    (files : Files) (max_opened_files total : ℕ) (downloaded saved : List Chunk)
    (messages : List (Moment × ChunkData))
    → All Smooth messages
    → AllDifferent (where_written (messages_of messages))
    → (w : Writer) × (run_writer messages (new_writer files max_opened_files total downloaded saved)
        ≡ (w, none))
      × Holds w.files (where_written (messages_of messages)) (what_written (messages_of messages))
run_writer-Holds files max_opened_files total downloaded saved messages smooth d =
    let (w, run, r) =
      run_writer-refines files max_opened_files total downloaded saved messages smooth in
    let ms = messages_of messages in
    (
      w,
      run,
      subst (λ f. Holds f (where_written ms) (what_written ms)) (sym r.written_files)
          (replay-Holds ms files d),
    )
