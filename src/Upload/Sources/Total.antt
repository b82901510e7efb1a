-- ===== src/Upload/Sources/Total.antt =====
-- The total size that `sources_list` (babel/src/utils.rs) reports, and the sort by path.
use mathlib.Core.Logic.{∥∥₁_elim, ∥∥₁_prop}
use mathlib.Core.List.{Perm, Permᴰ, reverse_perm, perm_append_comm}
use native.Mathlib.Nat.{ℕ_set}
use mathlib.Core.List.Perm
use blockvisor.Common.{
  ℕ, ◌+◌, ◌%◌, ◌^◌, ◌≡◌, refl, ap, ◌∙◌, ◌⊎◌, inl, inr, Bool, Option, none, some, List, [], ◌∷◌,
  ◌++◌, append_assoc, arith, Option-cases,
}
use blockvisor.Archive.{FilePath, FileLocation}
use blockvisor.Archive.Bytes.{total, locations, range}
use blockvisor.Upload.Sources.{
  Entry, SourcesList, whole_file, sources_loop, sources_list, insert_by_path, sort_by_path,
  from_last, List, Bool, Option, ℕ,
}

pub total-append : (xs ys : List FileLocation) → total (xs ++ ys) ≡ total xs + total ys
total-append [] ys = omega arith
total-append (x ∷ xs) ys = omega (arith, total-append xs ys)

module _ {Pattern : Type 0} (matches : Pattern → FilePath → Bool)
    (diff_paths : FilePath → Option FilePath) where
  loop_total :
      (exclude : List Pattern) (total_size : ℕ) (sources : List FileLocation)
      (entries : List (Option Entry)) (l : SourcesList)
      → total_size ≡ total sources % 2 ^ 64
      → sources_loop matches diff_paths exclude total_size sources entries ≡ some l
      → l.total_size ≡ total l.sources % 2 ^ 64
  unfolding sources_loop
  loop_total exclude total_size sources [] l e h = cc
  loop_total exclude total_size sources (none ∷ entries) l e h = cc
  loop_total exclude total_size sources (some entry ∷ entries) l e h =
      elim (Option-cases entry.len) [
        | inl unknown ↦ ground (arith, loop_total exclude total_size sources entries l e)
        | inr (size, known) ↦ ground (
          arith,
          loop_total exclude total_size sources entries l e,
          loop_total exclude ((total_size + size) % 2 ^ 64)
              (sources ++ whole_file entry.path size ∷ []) entries l
              (omega (arith, total-append sources (whole_file entry.path size ∷ []))),
        )
      ]

  -- The size that the list reports is that of its files, wrapped at 64 bits.
  pub sources_list-total :
      (exclude : List Pattern) (entries : List (Option Entry)) (l : SourcesList)
      → sources_list matches diff_paths exclude entries ≡ some l
      → l.total_size ≡ total l.sources % 2 ^ 64
  unfolding sources_list
  sources_list-total exclude entries l h = loop_total exclude 0 [] entries l refl h

insert_by_path_cons :
    (x y : FileLocation) (ys : List FileLocation)
    → (insert_by_path x (y ∷ ys) ≡ x ∷ y ∷ ys)
      ⊎ (insert_by_path x (y ∷ ys) ≡ y ∷ insert_by_path x ys)
unfolding insert_by_path
insert_by_path_cons x y ys = ground arith

insert_by_path_nil : (x : FileLocation) → insert_by_path x [] ≡ x ∷ []
unfolding insert_by_path
insert_by_path_nil x = refl

insert_by_path-perm :
    (x : FileLocation) (ys : List FileLocation) → Perm (insert_by_path x ys) (x ∷ ys)
insert_by_path-perm x [] = rw (insert_by_path_nil x) (Perm.refl (x ∷ []))
insert_by_path-perm x (y ∷ ys) = elim (insert_by_path_cons x y ys) [
  | inl first ↦ rw first (Perm.refl _)
  | inr later ↦ rw later (Perm.trans (Perm.cons y (insert_by_path-perm x ys)) (Perm.swap x y ys))
]

sort_by_path-perm : (xs : List FileLocation) → Perm (sort_by_path xs) xs
unfolding sort_by_path
sort_by_path-perm [] = Perm.refl []
sort_by_path-perm (x ∷ xs) =
    Perm.trans (insert_by_path-perm x (sort_by_path xs)) (Perm.cons x (sort_by_path-perm xs))

pub from_last-perm : (xs : List FileLocation) → Perm (from_last xs) xs
unfolding from_last
from_last-perm xs = Perm.trans (reverse_perm (sort_by_path xs)) (sort_by_path-perm xs)

total-Permᴰ : {xs ys : List FileLocation} → Permᴰ xs ys → total xs ≡ total ys
total-Permᴰ Permᴰ.nil = refl
total-Permᴰ (Permᴰ.cons e d) = omega (arith, ap (λ (f : FileLocation). f.size) e, total-Permᴰ d)
total-Permᴰ (Permᴰ.swap e e') =
    omega (arith, ap (λ (f : FileLocation). f.size) e, ap (λ (f : FileLocation). f.size) e')
total-Permᴰ (Permᴰ.trans d d') = total-Permᴰ d ∙ total-Permᴰ d'

locations-Permᴰ : {xs ys : List FileLocation} → Permᴰ xs ys → Perm (locations xs) (locations ys)
locations-Permᴰ Permᴰ.nil = Perm.refl []
locations-Permᴰ (Permᴰ.cons {b = f} e d) =
    rw e (Perm.append_left (range f.path f.pos f.size) (locations-Permᴰ d))
locations-Permᴰ (Permᴰ.swap {a' = f} {b' = g} {l = l} e e') =
    rw (e, e')
      (rw
        (
          ← append_assoc (range g.path g.pos g.size) (range f.path f.pos f.size) (locations l),
          ← append_assoc (range f.path f.pos f.size) (range g.path g.pos g.size) (locations l),
        )
        (Perm.append_right (locations l)
          (perm_append_comm (range g.path g.pos g.size) (range f.path f.pos f.size))))
locations-Permᴰ (Permᴰ.trans d d') = Perm.trans (locations-Permᴰ d) (locations-Permᴰ d')

pub total-from_last : (xs : List FileLocation) → total (from_last xs) ≡ total xs
total-from_last xs = ∥∥₁_elim (from_last-perm xs) (ℕ_set _ _) total-Permᴰ

pub locations-from_last-perm :
    (xs : List FileLocation) → Perm (locations (from_last xs)) (locations xs)
locations-from_last-perm xs = ∥∥₁_elim (from_last-perm xs) ∥∥₁_prop locations-Permᴰ
