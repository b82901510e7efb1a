-- ===== src/Download/Writer/Bounded.antt =====
-- How many files the writer of babel/src/download_job.rs keeps open.
use blockvisor.Common.{
  ℕ, zero, suc, ◌-◌, ◌≤◌, ◌≡◌, refl, sym, subst, inl, inr, true, false, Option, none, some, List,
  [], ◌∷◌, arith, leb, length, Bool-cases, length-append, Bool,
}
use blockvisor.Archive.{FilePath, Chunk}
use blockvisor.Archive.Files.{Files, same_path_refl}
use blockvisor.Download.{ChunkData, file_part, end_of_chunk}
use blockvisor.Download.Writer.{
  Opened, Writer, Moment, is_open, touch, pick, older, oldest, close, close_oldest, make_room,
  write_all_at, write_unless_empty, write_opened, write_new, open_file, with_room, write_to_file,
  end_chunk, handle_chunk_data, new_writer,
}

-- One file at least.
abbrev pub most_open : ℕ → ℕ
most_open zero = 1
most_open (suc n) = suc n

length-touch :
    (path : FilePath) (now : ℕ) (opened : List Opened)
    → length (touch path now opened) ≡ length opened
length-touch path now [] = refl
length-touch path now (entry ∷ opened) = ground (arith, length-touch path now opened)

abbrev FoundIn : List Opened → Option Opened → Type 0
FoundIn opened none = Unit {0}
FoundIn opened (some entry) = is_open entry.0 opened ≡ true

pick-FoundIn :
    (first : Bool) (entry other : Opened) (opened : List Opened)
    → is_open other.0 opened ≡ true
    → is_open (pick first entry other).0 (entry ∷ opened) ≡ true
pick-FoundIn true entry other opened found = rw (same_path_refl entry.0)
pick-FoundIn false entry other opened found = ground (arith, found)

older-FoundIn :
    (entry : Opened) (opened : List Opened) (other : Option Opened)
    → FoundIn opened other
    → is_open (older entry other).0 (entry ∷ opened) ≡ true
older-FoundIn entry opened none found = rw (same_path_refl entry.0)
older-FoundIn entry opened (some other) found =
    pick-FoundIn (leb entry.1 other.1) entry other opened found

oldest-FoundIn : (opened : List Opened) → FoundIn opened (oldest opened)
oldest-FoundIn [] = tt
oldest-FoundIn (entry ∷ opened) = older-FoundIn entry opened (oldest opened) (oldest-FoundIn opened)

length-close :
    (path : FilePath) (opened : List Opened)
    → is_open path opened ≡ true
    → suc (length (close path opened)) ≡ length opened
length-close path [] h = absurd (ground arith)
length-close path (entry ∷ opened) h = ground (arith, length-close path opened)

length-close_oldest :
    (opened : List Opened) → length (close_oldest (oldest opened) opened) ≡ length opened - 1
length-close_oldest [] = refl
length-close_oldest (entry ∷ opened) =
    let first = older entry (oldest opened) in
    omega (
      arith,
      length-close first.0 (entry ∷ opened)
          (older-FoundIn entry opened (oldest opened) (oldest-FoundIn opened)),
    )

make_room-bound :
    (max_opened_files : ℕ) (opened : List Opened)
    → length opened ≤ most_open max_opened_files
    → suc (length (make_room max_opened_files opened)) ≤ most_open max_opened_files
unfolding make_room
make_room-bound zero opened h = ground (arith, length-close_oldest opened)
make_room-bound (suc n) opened h = ground (arith, length-close_oldest opened)

-- The bound of a writer.
pub record Bounded (max_opened_files : ℕ) (w : Writer) : Type 0 where
  pub limit : w.max_opened_files ≡ max_opened_files
  pub within : length w.opened_files ≤ most_open max_opened_files

write_all_at-Bounded :
    (max_opened_files : ℕ) (moment : Moment) (path : FilePath) (pos : ℕ) (bytes : List ℕ)
    (w : Writer)
    → Bounded max_opened_files w
    → Bounded max_opened_files (write_all_at moment path pos bytes w).0
unfolding write_all_at
write_all_at-Bounded max_opened_files moment path pos bytes w b =
    elim (Bool-cases (leb (length bytes) moment.space)) [
      | inl e ↦ rw e (record { limit = b.limit; within = b.within })
      | inr e ↦ rw e (record { limit = b.limit; within = b.within })
    ]

write_unless_empty-Bounded :
    (max_opened_files : ℕ) (moment : Moment) (path : FilePath) (pos : ℕ) (bytes : List ℕ)
    (w : Writer)
    → Bounded max_opened_files w
    → Bounded max_opened_files (write_unless_empty moment path pos bytes w).0
write_unless_empty-Bounded max_opened_files moment path pos [] w b = b
write_unless_empty-Bounded max_opened_files moment path pos (byte ∷ bytes) w b =
    write_all_at-Bounded max_opened_files moment path pos (byte ∷ bytes) w b

write_opened-Bounded :
    (max_opened_files : ℕ) (moment : Moment) (path : FilePath) (pos : ℕ) (bytes : List ℕ)
    (w : Writer)
    → Bounded max_opened_files w
    → Bounded max_opened_files (write_opened moment path pos bytes w).0
write_opened-Bounded max_opened_files moment path pos [] w b = b
write_opened-Bounded max_opened_files moment path pos (byte ∷ bytes) w b =
    write_all_at-Bounded max_opened_files moment path pos (byte ∷ bytes)
      (record w { opened_files = touch path moment.now w.opened_files })
      (record {
        limit = b.limit;
        within = rw (length-touch path moment.now w.opened_files) b.within;
      })

with_room-bound :
    (max_opened_files : ℕ) (w : Writer)
    → Bounded max_opened_files w
    → suc (length (with_room w).opened_files) ≤ most_open max_opened_files
with_room-bound max_opened_files w b =
    subst (λ n. suc (length (make_room n w.opened_files)) ≤ most_open max_opened_files)
      (sym b.limit) (make_room-bound max_opened_files w.opened_files b.within)

write_new-Bounded :
    (opens : Bool) (max_opened_files : ℕ) (moment : Moment) (path : FilePath) (pos : ℕ)
    (bytes : List ℕ) (w : Writer)
    → Bounded max_opened_files w
    → suc (length w.opened_files) ≤ most_open max_opened_files
    → Bounded max_opened_files (write_new opens moment path pos bytes w).0
write_new-Bounded true max_opened_files moment path pos bytes w b room =
    write_unless_empty-Bounded max_opened_files moment path pos bytes (open_file moment path w)
      (record {
        limit = b.limit;
        within = omega (arith, length-append w.opened_files ((path, moment.now) ∷ []));
      })
write_new-Bounded false max_opened_files moment path pos bytes w b room = b

write_to_file-Bounded :
    (max_opened_files : ℕ) (moment : Moment) (path : FilePath) (pos : ℕ) (bytes : List ℕ)
    (w : Writer)
    → Bounded max_opened_files w
    → Bounded max_opened_files (write_to_file moment path pos bytes w).0
unfolding write_to_file
write_to_file-Bounded max_opened_files moment path pos bytes w b =
    let room = with_room-bound max_opened_files w b in
    elim (Bool-cases (is_open path w.opened_files)) [
      | inl e ↦ rw e (write_opened-Bounded max_opened_files moment path pos bytes w b)
      | inr e ↦ rw e (
          write_new-Bounded moment.opens max_opened_files moment path pos bytes (with_room w)
            (record { limit = b.limit; within = omega (arith, room) }) room)
    ]

end_chunk-Bounded :
    (max_opened_files : ℕ) (moment : Moment) (chunk : Chunk) (w : Writer)
    → Bounded max_opened_files w
    → Bounded max_opened_files (end_chunk moment chunk w).0
end_chunk-Bounded max_opened_files moment chunk w b = elim (Bool-cases moment.saves_chunk) [
  | inr e ↦ rw e b
  | inl e ↦ elim (Bool-cases moment.saves_progress) [
    | inl p ↦ rw (e, p) (record { limit = b.limit; within = b.within })
    | inr p ↦ rw (e, p) (record { limit = b.limit; within = b.within })
  ]
]

handle_chunk_data-Bounded :
    (max_opened_files : ℕ) (moment : Moment) (message : ChunkData) (w : Writer)
    → Bounded max_opened_files w
    → Bounded max_opened_files (handle_chunk_data moment message w).0
unfolding handle_chunk_data
handle_chunk_data-Bounded max_opened_files moment (file_part path pos bytes) w b =
    write_to_file-Bounded max_opened_files moment path pos bytes w b
handle_chunk_data-Bounded max_opened_files moment (end_of_chunk chunk) w b =
    end_chunk-Bounded max_opened_files moment chunk w b

-- The writers that a writer may become, whatever it is sent and however that is handled.
pub data Becomes (first : Writer) : Writer → Type 0 where
  unchanged : Becomes first first
  handled :
      {w : Writer} (moment : Moment) (message : ChunkData)
      → Becomes first w
      → Becomes first (handle_chunk_data moment message w).0

Becomes-Bounded :
    (max_opened_files : ℕ) {first w : Writer}
    → Bounded max_opened_files first
    → Becomes first w
    → Bounded max_opened_files w
Becomes-Bounded max_opened_files b unchanged = b
Becomes-Bounded max_opened_files b (handled {w} moment message before) =
    handle_chunk_data-Bounded max_opened_files moment message w
      (Becomes-Bounded max_opened_files b before)

-- The writer never has more than `max_opened_files` files open, and one where that is 0, whatever it
-- is sent and also after errors.
pub Becomes-opened_files :
    (files : Files) (max_opened_files total : ℕ) (downloaded saved : List Chunk) {w : Writer}
    → Becomes (new_writer files max_opened_files total downloaded saved) w
    → length w.opened_files ≤ most_open max_opened_files
Becomes-opened_files files max_opened_files total downloaded saved reached =
    (Becomes-Bounded max_opened_files (record { limit = refl; within = omega arith })
      reached).within
