-- ===== src/Archive/Bytes.antt =====
-- The bytes that a list of file locations names, in order: the view of babel_api/src/engine.rs's
-- `FileLocation` by which chunks and sources are compared.
use blockvisor.Common.{
  ℕ, zero, suc, ◌+◌, ◌≡◌, refl, sym, ap, ◌∙◌, List, [], ◌∷◌, ◌++◌, append_assoc, arith, length,
  length-append,
}
use blockvisor.Archive.{FilePath, FileLocation}

-- One byte of one file.
abbrev pub Location : Type 0
Location = FilePath × ℕ

abbrev pub range : FilePath → ℕ → ℕ → List Location
range path pos zero = []
range path pos (suc size) = (path, pos) ∷ range path (pos + 1) size

abbrev pub locations : List FileLocation → List Location
locations [] = []
locations (f ∷ fs) = range f.path f.pos f.size ++ locations fs

abbrev pub total : List FileLocation → ℕ
total [] = 0
total (f ∷ fs) = f.size + total fs

pub length-range : (path : FilePath) (pos size : ℕ) → length (range path pos size) ≡ size
length-range path pos zero = refl
length-range path pos (suc size) = ap suc (length-range path (pos + 1) size)

pub length-locations : (fs : List FileLocation) → length (locations fs) ≡ total fs
length-locations [] = refl
length-locations (f ∷ fs) = omega (
  arith,
  length-append (range f.path f.pos f.size) (locations fs),
  length-range f.path f.pos f.size,
  length-locations fs,
)

-- A part of a file is its beginning and what follows.
pub range-append :
    (path : FilePath) (pos a b mid c : ℕ)
    → mid ≡ pos + a
    → c ≡ a + b
    → range path pos a ++ range path mid b ≡ range path pos c
range-append path pos zero b mid c m e =
    let mid-pos : mid ≡ pos = omega arith in let c-b : c ≡ b = omega arith in rw (mid-pos, c-b)
range-append path pos (suc a) b mid c m e =
    let c-suc : c ≡ suc (a + b) = omega arith in
    rw c-suc (ap (◌∷◌ (path, pos)) (range-append path (pos + 1) a b mid (a + b) (omega arith) refl))

pub locations-append :
    (xs ys : List FileLocation) → locations (xs ++ ys) ≡ locations xs ++ locations ys
locations-append [] ys = refl
locations-append (x ∷ xs) ys =
    ap (◌++◌ (range x.path x.pos x.size)) (locations-append xs ys)
    ∙ sym (append_assoc (range x.path x.pos x.size) (locations xs) (locations ys))
