-- ===== src/Archive/Files.antt =====
-- File systems as the transfers of archives see them: what a path names, and the write of bytes at a
-- position of a file (`FileExt::write_all_at`), which fills a gap with zeros.
use blockvisor.Common.{
  ℕ, zero, suc, ◌+◌, ◌≤◌, ◌<◌, ◌≡◌, refl, ap, ◌⊎◌, inl, inr, Bool, true, false, ◌&&◌, Option, none,
  some, List, [], ◌∷◌, ◌++◌, arith, ◌==◌, if◌then◌else◌, length, get_elem?, drop,
}
use blockvisor.Archive.{FilePath}
use blockvisor.Archive.Bytes.{Location}
use native.Mathlib.Nat.{zero-add, suc-add}

abbrev pub Files : Type 0
Files = FilePath → Option (List ℕ)

abbrev pub same_bytes : List ℕ → List ℕ → Bool
same_bytes [] [] = true
same_bytes [] (y ∷ ys) = false
same_bytes (x ∷ xs) [] = false
same_bytes (x ∷ xs) (y ∷ ys) = (x == y) && same_bytes xs ys

abbrev pub same_path : FilePath → FilePath → Bool
same_path [] [] = true
same_path [] (y ∷ ys) = false
same_path (x ∷ xs) [] = false
same_path (x ∷ xs) (y ∷ ys) = same_bytes x y && same_path xs ys

abbrev pub put : FilePath → List ℕ → Files → Files
put path file files other = if same_path path other then some file else files other

abbrev pub overwrite : List ℕ → ℕ → List ℕ → List ℕ
overwrite file zero bytes = bytes ++ drop (length bytes) file
overwrite [] (suc pos) bytes = 0 ∷ overwrite [] pos bytes
overwrite (byte ∷ file) (suc pos) bytes = byte ∷ overwrite file pos bytes

pub same_bytes_refl : (xs : List ℕ) → same_bytes xs xs ≡ true
same_bytes_refl [] = refl
same_bytes_refl (x ∷ xs) = ground (arith, same_bytes_refl xs)

pub same_path_refl : (path : FilePath) → same_path path path ≡ true
same_path_refl [] = refl
same_path_refl (x ∷ xs) = rw same_bytes_refl (same_path_refl xs)

same_bytes→eq : (xs ys : List ℕ) → same_bytes xs ys ≡ true → xs ≡ ys
same_bytes→eq [] [] h = refl
same_bytes→eq [] (y ∷ ys) h = absurd (ground arith)
same_bytes→eq (x ∷ xs) [] h = absurd (ground arith)
same_bytes→eq (x ∷ xs) (y ∷ ys) h =
    let e : x ≡ y = ground arith in rw e (ap (◌∷◌ y) (same_bytes→eq xs ys (ground arith)))

pub same_path→eq : (p q : FilePath) → same_path p q ≡ true → p ≡ q
same_path→eq [] [] h = refl
same_path→eq [] (y ∷ ys) h = absurd (ground arith)
same_path→eq (x ∷ xs) [] h = absurd (ground arith)
same_path→eq (x ∷ xs) (y ∷ ys) h =
    let e : x ≡ y = same_bytes→eq x y (ground arith) in
    rw e (ap (◌∷◌ y) (same_path→eq xs ys (ground arith)))

pub put-same :
    (path : FilePath) (file : List ℕ) (files : Files) → put path file files path ≡ some file
put-same path file files = rw (same_path_refl path)

pub put-put :
    (path : FilePath) (old new : List ℕ) (files : Files) (other : FilePath)
    → put path new (put path old files) other ≡ put path new files other
put-put path old new files other = ground arith

get_elem?-append :
    (xs ys : List ℕ) (i b : ℕ) → get_elem? xs i ≡ some b → get_elem? (xs ++ ys) i ≡ some b
get_elem?-append [] ys i b h = absurd (ground arith)
get_elem?-append (x ∷ xs) ys zero b h = h
get_elem?-append (x ∷ xs) ys (suc i) b h = get_elem?-append xs ys i b h

get_elem?-after :
    (xs file : List ℕ) (i b : ℕ)
    → get_elem? file i ≡ some b
    → length xs ≤ i
    → get_elem? (xs ++ drop (length xs) file) i ≡ some b
get_elem?-after [] file i b h past = h
get_elem?-after (x ∷ xs) file zero b h past = absurd (omega arith)
get_elem?-after (x ∷ xs) [] (suc i) b h past = absurd (ground arith)
get_elem?-after (x ∷ xs) (f ∷ file) (suc i) b h past = get_elem?-after xs file i b h (omega arith)

-- The bytes that are written are there, and those before and behind them are as they were.
pub overwrite-new :
    (file bytes : List ℕ) (pos i b : ℕ)
    → get_elem? bytes i ≡ some b
    → get_elem? (overwrite file pos bytes) (pos + i) ≡ some b
overwrite-new file bytes zero i b h =
    rw zero-add (get_elem?-append bytes (drop (length bytes) file) i b h)
overwrite-new [] bytes (suc pos) i b h = rw suc-add (overwrite-new [] bytes pos i b h)
overwrite-new (x ∷ file) bytes (suc pos) i b h = rw suc-add (overwrite-new file bytes pos i b h)

pub overwrite-old :
    (file bytes : List ℕ) (pos at b : ℕ)
    → get_elem? file at ≡ some b
    → (at < pos) ⊎ (pos + length bytes ≤ at)
    → get_elem? (overwrite file pos bytes) at ≡ some b
overwrite-old file bytes zero at b h (inl before) = absurd (omega arith)
overwrite-old file bytes zero at b h (inr behind) = get_elem?-after bytes file at b h (omega arith)
overwrite-old [] bytes (suc pos) at b h apart = absurd (ground arith)
overwrite-old (x ∷ file) bytes (suc pos) zero b h apart = h
overwrite-old (x ∷ file) bytes (suc pos) (suc at) b h apart =
    overwrite-old file bytes pos at b h (ground arith)

abbrev pub byte_at : Files → Location → Option ℕ
byte_at files (path, pos) = elim (files path) [ none ↦ none | some file ↦ get_elem? file pos ]

-- At each place the files hold the byte of the same number.
abbrev pub Holds : Files → List Location → List ℕ → Type 0
Holds files [] [] = Unit {0}
Holds files [] (byte ∷ bytes) = ⊥
Holds files (place ∷ places) [] = ⊥
Holds files (place ∷ places) (byte ∷ bytes) =
    (byte_at files place ≡ some byte) × Holds files places bytes

pub Holds-append :
    (files : Files) (p q : List Location) (xs ys : List ℕ)
    → Holds files p xs
    → Holds files q ys
    → Holds files (p ++ q) (xs ++ ys)
Holds-append files [] q [] ys h k = k
Holds-append files [] q (x ∷ xs) ys h k = absurd h
Holds-append files (p ∷ ps) q [] ys h k = absurd h
Holds-append files (p ∷ ps) q (x ∷ xs) ys (e, h) k = (e, Holds-append files ps q xs ys h k)
