-- ===== src/Download/Writer/Step.antt =====
-- What the writer of babel/src/download_job.rs makes of the files, without its open files: each part
-- is written into the file that its path names.
use blockvisor.Common.{
  le→leb, ℕ, ◌≤◌, ◌≡◌, refl, sym, subst, ◌∙◌, inl, inr, true, Option, none, some, List, [], ◌∷◌,
  ◌++◌, length, Bool-cases,
}
use mathlib.Core.Path.{fun_ext}
use blockvisor.Archive.{FilePath, Chunk}
use blockvisor.Archive.Files.{Files, put, put-same, put-put, overwrite}
use blockvisor.Download.{ChunkData, file_part, end_of_chunk}
use blockvisor.Download.Writer.{
  Opened, Writer, Moment, Handled, is_open, touch, write_file, write_all_at, write_unless_empty,
  write_opened, create_file, write_new, open_file, with_room, write_to_file, chunk_saved,
  progress_saved, handle_chunk_data,
}
use blockvisor.Download.Writer.Open.{
  There, is_open-touch, is_open-make_room, There-put, There-create_file,
}

abbrev pub contents : Option (List ℕ) → List ℕ
contents none = []
contents (some file) = file

abbrev pub written : FilePath → ℕ → List ℕ → Files → Files
written path pos [] files = create_file (files path) path files
written path pos (byte ∷ bytes) files =
    put path (overwrite (contents (files path)) pos (byte ∷ bytes)) files

abbrev pub replay : List ChunkData → Files → Files
replay [] files = files
replay (file_part path pos bytes ∷ messages) files = replay messages (written path pos bytes files)
replay (end_of_chunk chunk ∷ messages) files = replay messages files

abbrev pub ended_chunks : List ChunkData → List Chunk
ended_chunks [] = []
ended_chunks (file_part path pos bytes ∷ messages) = ended_chunks messages
ended_chunks (end_of_chunk chunk ∷ messages) = chunk ∷ ended_chunks messages

-- The message is handled without an error of the system, and the run flag is still set.
abbrev pub Smooth : Moment × ChunkData → Type 0
Smooth (moment, file_part path pos bytes) =
    (moment.running ≡ true) × (moment.opens ≡ true) × (length bytes ≤ moment.space)
Smooth (moment, end_of_chunk chunk) =
    (moment.running ≡ true) × (moment.saves_chunk ≡ true) × (moment.saves_progress ≡ true)

-- What a handled part leaves.
pub record Wrote (files : Files) (chunks saved_chunks : List Chunk) (w : Writer) : Type 0 where
  pub written_files : w.files ≡ files
  pub there : There w.files w.opened_files
  pub downloaded : w.downloaded_chunks ≡ chunks
  pub saved : w.saved_chunks ≡ saved_chunks

abbrev pub WroteAll : Files → Writer → Handled → Type 0
WroteAll files w run =
    (w' : Writer) × (run ≡ (w', none)) × Wrote files w.downloaded_chunks w.saved_chunks w'

write_file-there :
    (old : Option (List ℕ)) (path : FilePath) (pos byte : ℕ) (bytes : List ℕ) (files : Files)
    → files path ≡ old
    → (file : List ℕ) × (old ≡ some file)
    → write_file (files path) path pos (byte ∷ bytes) files ≡ written path pos (byte ∷ bytes) files
write_file-there old path pos byte bytes files e (file, found) = rw (e, found)

write_file-create_file :
    (old : Option (List ℕ)) (path : FilePath) (pos byte : ℕ) (bytes : List ℕ) (files : Files)
    → files path ≡ old
    → write_file
        (create_file (files path) path files path)
        path
        pos
        (byte ∷ bytes)
        (create_file (files path) path files)
      ≡ written path pos (byte ∷ bytes) files
write_file-create_file none path pos byte bytes files e =
    rw (e, put-same path [] files)
      (fun_ext (put-put path [] (overwrite [] pos (byte ∷ bytes)) files))
write_file-create_file (some file) path pos byte bytes files e = rw (e, e)

There-write_file :
    (old : Option (List ℕ)) (path : FilePath) (pos : ℕ) (bytes : List ℕ) (files : Files)
    (opened : List Opened)
    → There files opened
    → There (write_file old path pos bytes files) opened
There-write_file none path pos bytes files opened there = there
There-write_file (some file) path pos [] files opened there = there
There-write_file (some file) path pos (byte ∷ bytes) files opened there =
    There-put path (overwrite file pos (byte ∷ bytes)) files opened there

write_all_at-Wrote :
    (moment : Moment) (path : FilePath) (pos byte : ℕ) (bytes : List ℕ) (w : Writer)
    → length (byte ∷ bytes) ≤ moment.space
    → There w.files w.opened_files
    → WroteAll
        (write_file (w.files path) path pos (byte ∷ bytes) w.files)
        w
        (write_all_at moment path pos (byte ∷ bytes) w)
unfolding write_all_at
write_all_at-Wrote moment path pos byte bytes w fits there = (
  record w { files = write_file (w.files path) path pos (byte ∷ bytes) w.files },
  rw (le→leb (length (byte ∷ bytes)) moment.space fits),
  record {
    written_files = refl;
    there = There-write_file (w.files path) path pos (byte ∷ bytes) w.files w.opened_files there;
    downloaded = refl;
    saved = refl;
  },
)

write_opened-Wrote :
    (moment : Moment) (path : FilePath) (pos : ℕ) (bytes : List ℕ) (w : Writer)
    → length bytes ≤ moment.space
    → There w.files w.opened_files
    → is_open path w.opened_files ≡ true
    → WroteAll (written path pos bytes w.files) w (write_opened moment path pos bytes w)
write_opened-Wrote moment path pos [] w fits there was_open =
    let (file, found) = there path was_open in
    (w, refl, record { written_files = rw found; there = there; downloaded = refl; saved = refl })
write_opened-Wrote moment path pos (byte ∷ bytes) w fits there was_open =
    let touched = touch path moment.now w.opened_files in
    let found = there path was_open in
    subst (λ files. WroteAll files w (write_opened moment path pos (byte ∷ bytes) w))
      (write_file-there (w.files path) path pos byte bytes w.files refl found)
      (write_all_at-Wrote moment path pos byte bytes (record w { opened_files = touched }) fits
        (λ other h. there other (sym (is_open-touch other path moment.now w.opened_files) ∙ h)))

write_unless_empty-Wrote :
    (moment : Moment) (path : FilePath) (pos : ℕ) (bytes : List ℕ) (w : Writer)
    → length bytes ≤ moment.space
    → There w.files w.opened_files
    → WroteAll
        (written path pos bytes w.files)
        w
        (write_unless_empty moment path pos bytes (open_file moment path w))
write_unless_empty-Wrote moment path pos [] w fits there = (
  open_file moment path w,
  refl,
  record {
    written_files = refl;
    there = There-create_file path moment.now w.files w.opened_files (w.files path) refl there;
    downloaded = refl;
    saved = refl;
  },
)
write_unless_empty-Wrote moment path pos (byte ∷ bytes) w fits there =
    subst
      (λ files.
        WroteAll files w
          (write_unless_empty moment path pos (byte ∷ bytes) (open_file moment path w)))
      (write_file-create_file (w.files path) path pos byte bytes w.files refl)
      (write_all_at-Wrote moment path pos byte bytes (open_file moment path w) fits
        (There-create_file path moment.now w.files w.opened_files (w.files path) refl there))

write_to_file-Wrote :
    (moment : Moment) (path : FilePath) (pos : ℕ) (bytes : List ℕ) (w : Writer)
    → Smooth (moment, file_part path pos bytes)
    → There w.files w.opened_files
    → WroteAll (written path pos bytes w.files) w (write_to_file moment path pos bytes w)
unfolding write_to_file
write_to_file-Wrote moment path pos bytes w (_, opens, fits) there =
    elim (Bool-cases (is_open path w.opened_files)) [
      | inl e ↦ rw e (write_opened-Wrote moment path pos bytes w fits there e)
      | inr e ↦ rw e (
          subst
            (λ b.
              WroteAll (written path pos bytes w.files) w
                (write_new b moment path pos bytes (with_room w)))
            (sym opens)
            (write_unless_empty-Wrote moment path pos bytes (with_room w) fits (λ other h.
              there other (is_open-make_room other w.max_opened_files w.opened_files h))))
    ]

pub handle_part-Wrote :
    (moment : Moment) (path : FilePath) (pos : ℕ) (bytes : List ℕ) (w : Writer)
    → Smooth (moment, file_part path pos bytes)
    → There w.files w.opened_files
    → WroteAll
        (written path pos bytes w.files)
        w
        (handle_chunk_data moment (file_part path pos bytes) w)
unfolding handle_chunk_data
handle_part-Wrote moment path pos bytes w smooth there =
    write_to_file-Wrote moment path pos bytes w smooth there

pub handle_end-Wrote :
    (moment : Moment) (chunk : Chunk) (w : Writer)
    → Smooth (moment, end_of_chunk chunk)
    → There w.files w.opened_files
    → (w' : Writer) × (handle_chunk_data moment (end_of_chunk chunk) w ≡ (w', none))
      × Wrote w.files (w.downloaded_chunks ++ chunk ∷ []) (w.saved_chunks ++ chunk ∷ []) w'
unfolding handle_chunk_data
handle_end-Wrote moment chunk w (_, chunk_ok, progress_ok) there = (
  progress_saved (chunk_saved chunk w),
  rw (chunk_ok, progress_ok),
  record { written_files = refl; there = there; downloaded = refl; saved = refl },
)
