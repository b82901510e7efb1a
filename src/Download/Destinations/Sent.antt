-- ===== src/Download/Destinations/Sent.antt =====
-- What has been sent to the writer of babel/src/download_job.rs, as the bytes and their places.
use mathlib.Core.Path.{ap₂}
use blockvisor.Archive.{FilePath, FileLocation}
use blockvisor.Archive.Bytes.{Location, range, locations, total, length-range, length-locations}
use blockvisor.Common.Outcome.{ok}
use blockvisor.Download.{ChunkData, file_part, end_of_chunk, Sends}
use blockvisor.Common.{
  ℕ, ◌+◌, ◌≡◌, refl, sym, ap, ◌∙◌, List, [], ◌∷◌, ◌++◌, append_assoc, arith, length, length-append,
}

-- The bytes of a part, each at its place: `write_all_at`.
abbrev pub part_writes : FilePath → ℕ → List ℕ → List (Location × ℕ)
part_writes path pos [] = []
part_writes path pos (byte ∷ bytes) = ((path, pos), byte) ∷ part_writes path (pos + 1) bytes

abbrev pub writes : List ChunkData → List (Location × ℕ)
writes [] = []
writes (file_part path pos bytes ∷ sent) = part_writes path pos bytes ++ writes sent
writes (end_of_chunk chunk ∷ sent) = writes sent

abbrev pub where_written : List ChunkData → List Location
where_written [] = []
where_written (file_part path pos bytes ∷ sent) =
    range path pos (length bytes) ++ where_written sent
where_written (end_of_chunk chunk ∷ sent) = where_written sent

abbrev pub what_written : List ChunkData → List ℕ
what_written [] = []
what_written (file_part path pos bytes ∷ sent) = bytes ++ what_written sent
what_written (end_of_chunk chunk ∷ sent) = what_written sent

same_number : (sent : List ChunkData) → length (where_written sent) ≡ length (what_written sent)
same_number [] = refl
same_number (file_part path pos bytes ∷ sent) = omega (
  arith,
  length-append (range path pos (length bytes)) (where_written sent),
  length-append bytes (what_written sent),
  length-range path pos (length bytes),
  same_number sent,
)
same_number (end_of_chunk chunk ∷ sent) = same_number sent

-- `buffer` goes to the first of the destinations' places, and what is left of them is `left`.
pub record Sent (buffer : List ℕ) (destination left : List FileLocation) (sent : List ChunkData)
    : Type 0 where
  pub places : where_written sent ++ locations left ≡ locations destination
  pub bytes : what_written sent ≡ buffer

abbrev pub Delivers : Sends (List FileLocation) → List ℕ → List FileLocation → Type 0
Delivers run buffer destination =
    (sent : List ChunkData) × (left : List FileLocation) × (run ≡ (sent, ok left))
    × Sent buffer destination left sent

pub where_written-append :
    (xs ys : List ChunkData) → where_written (xs ++ ys) ≡ where_written xs ++ where_written ys
where_written-append [] ys = refl
where_written-append (file_part path pos bytes ∷ xs) ys =
    ap (◌++◌ (range path pos (length bytes))) (where_written-append xs ys)
    ∙ sym (append_assoc (range path pos (length bytes)) (where_written xs) (where_written ys))
where_written-append (end_of_chunk chunk ∷ xs) ys = where_written-append xs ys

pub what_written-append :
    (xs ys : List ChunkData) → what_written (xs ++ ys) ≡ what_written xs ++ what_written ys
what_written-append [] ys = refl
what_written-append (file_part path pos bytes ∷ xs) ys =
    ap (◌++◌ bytes) (what_written-append xs ys)
    ∙ sym (append_assoc bytes (what_written xs) (what_written ys))
what_written-append (end_of_chunk chunk ∷ xs) ys = what_written-append xs ys

-- What is sent first and then, with the rest of the destinations.
pub Sent-trans :
    (b₁ b₂ : List ℕ) (d₁ d₂ d₃ : List FileLocation) (s₁ s₂ : List ChunkData)
    → Sent b₁ d₁ d₂ s₁
    → Sent b₂ d₂ d₃ s₂
    → Sent (b₁ ++ b₂) d₁ d₃ (s₁ ++ s₂)
Sent-trans b₁ b₂ d₁ d₂ d₃ s₁ s₂ t u = record {
  places = rw (where_written-append s₁ s₂) (
      append_assoc (where_written s₁) (where_written s₂) (locations d₃)
      ∙ ap (◌++◌ (where_written s₁)) u.places
      ∙ t.places);
  bytes = what_written-append s₁ s₂ ∙ ap₂ ◌++◌ t.bytes u.bytes;
}

-- The places that are left are as many as there were, but for the buffer.
pub Sent-total :
    (buffer : List ℕ) (destination left : List FileLocation) (sent : List ChunkData)
    → Sent buffer destination left sent
    → length buffer + total left ≡ total destination
Sent-total buffer destination left sent t = omega (
  arith,
  ap length t.places,
  length-append (where_written sent) (locations left),
  length-locations left,
  length-locations destination,
  same_number sent,
  ap length t.bytes,
)
