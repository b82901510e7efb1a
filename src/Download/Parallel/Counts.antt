-- ===== src/Download/Parallel/Counts.antt =====
-- How often an index occurs in the sets and the lists of the chunk downloaders of
-- babel/src/download_job.rs.
use blockvisor.Common.{
  ℕ, zero, suc, ◌+◌, ◌≤◌, ◌<◌, ◌≡◌, refl, ap, subst, ◌∙◌, inl, inr, true, not, some, List, [], ◌∷◌,
  ◌++◌, arith, ltb, ◌==◌, if◌then◌else◌, get_elem?, retain, Bool-cases, take,
}
use blockvisor.Archive.{Chunk}
use blockvisor.Upload.Parallel.{remove_at}
use blockvisor.Upload.Parallel.Indexes.{index_or_0}
use blockvisor.Download.Parallel.{contains, remove, indexes_below, indexes_of, indexes_left}

abbrev pub count : ℕ → List ℕ → ℕ
count i [] = 0
count i (index ∷ indexes) = if index == i then suc (count i indexes) else count i indexes

pub count-append : (i : ℕ) (xs ys : List ℕ) → count i (xs ++ ys) ≡ count i xs + count i ys
count-append i [] ys = omega arith
count-append i (x ∷ xs) ys = ground (arith, count-append i xs ys)

pub count-remove :
    (i k : ℕ) (xs : List ℕ)
    → contains k xs ≡ true
    → count i xs ≡ count i (remove k xs) + count i (k ∷ [])
count-remove i k [] h = absurd (ground arith)
count-remove i k (x ∷ xs) h = ground (arith, count-remove i k xs)

pub count-remove-le : (i k : ℕ) (xs : List ℕ) → count i (remove k xs) ≤ count i xs
count-remove-le i k [] = omega arith
count-remove-le i k (x ∷ xs) = ground (arith, count-remove-le i k xs)

pub count→contains : (i : ℕ) (xs : List ℕ) → 0 < count i xs → contains i xs ≡ true
count→contains i [] h = absurd (omega arith)
count→contains i (x ∷ xs) h = ground (arith, count→contains i xs)

pub contains→count : (i : ℕ) (xs : List ℕ) → contains i xs ≡ true → 0 < count i xs
contains→count i [] h = absurd (ground arith)
contains→count i (x ∷ xs) h = ground (arith, contains→count i xs)

pub count-take : (i n : ℕ) (xs : List ℕ) → count i (take n xs) ≤ count i xs
count-take i zero xs = omega arith
count-take i (suc n) [] = omega arith
count-take i (suc n) (x ∷ xs) = ground (arith, count-take i n xs)

count-indexes_below : (i n : ℕ) → count i (indexes_below n) ≡ (if ltb i n then 1 else 0)
count-indexes_below i zero = ground arith
count-indexes_below i (suc n) =
    ground (arith, count-indexes_below i n, count-append i (indexes_below n) (n ∷ []))

count-retain :
    (i : ℕ) (downloaded xs : List ℕ)
    → count i (retain (λ (index : ℕ). not (contains index downloaded)) xs)
      ≡ (if contains i downloaded then 0 else count i xs)
count-retain i downloaded [] = ground arith
count-retain i downloaded (x ∷ xs) = elim (Bool-cases (x == i)) [
  | inl same ↦
      let e : x ≡ i = ground arith in
      subst
        (λ k.
          count k (retain (λ (index : ℕ). not (contains index downloaded)) (x ∷ xs))
          ≡ (if contains k downloaded then 0 else count k (x ∷ xs)))
        e (ground (arith, count-retain x downloaded xs))
  | inr differs ↦ ground (arith, differs, count-retain i downloaded xs)
]

-- How often an index is to be downloaded.
abbrev pub due : ℕ → List ℕ → ℕ → ℕ
due total_chunks_count downloaded i =
    if contains i downloaded then 0 else if ltb i total_chunks_count then 1 else 0

pub count-indexes_left :
    (total_chunks_count : ℕ) (downloaded : List ℕ) (i : ℕ)
    → count i (indexes_left total_chunks_count downloaded) ≡ due total_chunks_count downloaded i
count-indexes_left total_chunks_count downloaded i =
    count-retain i downloaded (indexes_below total_chunks_count)
    ∙ ap (λ n. if contains i downloaded then 0 else n) (count-indexes_below i total_chunks_count)

pub indexes_of-append :
    (xs ys : List Chunk) → indexes_of (xs ++ ys) ≡ indexes_of xs ++ indexes_of ys
indexes_of-append [] ys = refl
indexes_of-append (x ∷ xs) ys = ap (◌∷◌ x.index) (indexes_of-append xs ys)

pub count-snoc :
    (i : ℕ) (xs : List Chunk) (chunk : Chunk)
    → count i (indexes_of (xs ++ chunk ∷ [])) ≡ count i (indexes_of xs) + count i (chunk.index ∷ [])
count-snoc i xs chunk =
    ap (count i) (indexes_of-append xs (chunk ∷ []))
    ∙ count-append i (indexes_of xs) (chunk.index ∷ [])

pub count-remove_at :
    (i at : ℕ) (xs : List Chunk) (chunk : Chunk)
    → get_elem? xs at ≡ some chunk
    → count i (indexes_of xs) ≡ count i (indexes_of (remove_at at xs)) + count i (chunk.index ∷ [])
count-remove_at i at [] chunk found = absurd (ground arith)
count-remove_at i zero (x ∷ xs) chunk found =
    let same : x.index ≡ chunk.index = ap index_or_0 found in ground arith
count-remove_at i (suc at) (x ∷ xs) chunk found =
    ground (arith, count-remove_at i at xs chunk found)
