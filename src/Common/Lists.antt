-- ===== src/Common/Lists.antt =====
-- Lists measured and indexed by native numbers, under the library's names.
use Prim.Native.Nat.{ℕ, zero, suc, ◌+◌, ◌-◌, ◌≤◌, ◌<◌, min}
use native.Mathlib.Nat.{zero-add, suc-add}
use mathlib.Core.Path.{◌≡◌, refl, sym, ap, ◌∙◌}
use mathlib.Core.Bool.{Bool, true, false}
use mathlib.Core.List.{List, [], ◌∷◌, ◌++◌}
use mathlib.Core.Option.{Option, none, some}
use native.Mathlib.Numerals.{add-one}
use native.Mathlib.Omega.{arith}

module _ {ℓ} {A : Type ℓ} where
  abbrev pub length : List A → ℕ
  length [] = 0
  length (x ∷ xs) = suc (length xs)

  abbrev pub take : ℕ → List A → List A
  take zero xs = []
  take (suc n) [] = []
  take (suc n) (x ∷ xs) = x ∷ take n xs

  abbrev pub drop : ℕ → List A → List A
  drop zero xs = xs
  drop (suc n) [] = []
  drop (suc n) (x ∷ xs) = drop n xs

  -- `Vec::retain` and `Iterator::filter`: what passes a Boolean test.
  abbrev pub retain : (A → Bool) → List A → List A
  retain p [] = []
  retain p (x ∷ xs) = elim (p x) [ true ↦ x ∷ retain p xs | false ↦ retain p xs ]

  abbrev pub any : (A → Bool) → List A → Bool
  any p [] = false
  any p (x ∷ xs) = elim (p x) [ true ↦ true | false ↦ any p xs ]

  abbrev pub is_empty : List A → Bool
  is_empty [] = true
  is_empty (x ∷ xs) = false

  abbrev pub flatten : List (List A) → List A
  flatten [] = []
  flatten (xs ∷ xss) = xs ++ flatten xss

  abbrev pub All {κ} : (A → Type κ) → List A → Type κ
  All P [] = Unit
  All P (x ∷ xs) = P x × All P xs

  pub length-append : (xs ys : List A) → length (xs ++ ys) ≡ length xs + length ys
  length-append [] ys = omega arith
  length-append (x ∷ xs) ys = omega (arith, length-append xs ys)

  pub length-retain-le : (p : A → Bool) (xs : List A) → length (retain p xs) ≤ length xs
  length-retain-le p [] = omega arith
  length-retain-le p (x ∷ xs) = ground (arith, length-retain-le p xs)

  pub length-take : (n : ℕ) (xs : List A) → length (take n xs) ≡ min n (length xs)
  length-take zero xs = omega arith
  length-take (suc n) [] = omega arith
  length-take (suc n) (x ∷ xs) = omega (arith, length-take n xs)

  pub length-drop : (n : ℕ) (xs : List A) → length (drop n xs) ≡ length xs - n
  length-drop zero xs = omega arith
  length-drop (suc n) [] = omega arith
  length-drop (suc n) (x ∷ xs) = omega (arith, length-drop n xs)

  pub take-append-drop : (n : ℕ) (xs : List A) → take n xs ++ drop n xs ≡ xs
  take-append-drop zero xs = refl
  take-append-drop (suc n) [] = refl
  take-append-drop (suc n) (x ∷ xs) = ap (◌∷◌ x) (take-append-drop n xs)

  drop-nil : (n : ℕ) → drop n [] ≡ []
  drop-nil zero = refl
  drop-nil (suc n) = refl

  take-nil : (n : ℕ) → take n [] ≡ []
  take-nil zero = refl
  take-nil (suc n) = refl

  pub drop-drop : (a b : ℕ) (xs : List A) → drop b (drop a xs) ≡ drop (a + b) xs
  drop-drop zero b xs = rw zero-add
  drop-drop (suc a) b [] = drop-nil b ∙ sym (drop-nil (suc a + b))
  drop-drop (suc a) b (x ∷ xs) = rw suc-add (drop-drop a b xs)

  -- What is taken in two parts.
  pub take-take-drop : (a b : ℕ) (xs : List A) → take a xs ++ take b (drop a xs) ≡ take (a + b) xs
  take-take-drop zero b xs = rw zero-add
  take-take-drop (suc a) b [] = take-nil b ∙ sym (take-nil (suc a + b))
  take-take-drop (suc a) b (x ∷ xs) = rw suc-add (ap (◌∷◌ x) (take-take-drop a b xs))

  -- The part of a list of `size` items from `pos` on.
  abbrev pub slice : List A → ℕ → ℕ → List A
  slice xs pos size = take size (drop pos xs)

  pub length-slice :
      (xs : List A) (pos size : ℕ) → pos + size ≤ length xs → length (slice xs pos size) ≡ size
  length-slice xs pos size h = omega (arith, length-take size (drop pos xs), length-drop pos xs)

  pub slice-append :
      (xs : List A) (pos a b mid c : ℕ)
      → mid ≡ pos + a
      → c ≡ a + b
      → slice xs pos a ++ slice xs mid b ≡ slice xs pos c
  slice-append xs pos a b mid c m e =
      rw (m, e, ← drop-drop pos a xs) (take-take-drop a b (drop pos xs))

  pub first_of_some : (xs : List A) → 0 < length xs → (x : A) × (ys : List A) × (xs ≡ x ∷ ys)
  first_of_some [] h = absurd (omega arith)
  first_of_some (x ∷ xs) h = (x, xs, refl)

  pub take-length : (xs : List A) → take (length xs) xs ≡ xs
  take-length [] = refl
  take-length (x ∷ xs) = ap (◌∷◌ x) (take-length xs)

  pub drop-length : (xs : List A) → drop (length xs) xs ≡ []
  drop-length [] = refl
  drop-length (x ∷ xs) = drop-length xs

  abbrev pub get_elem? : List A → ℕ → Option A
  get_elem? [] i = none
  get_elem? (x ∷ xs) zero = some x
  get_elem? (x ∷ xs) (suc i) = get_elem? xs i

  first_of_slice :
      (xs : List A) (pos size : ℕ)
      → pos + suc size ≤ length xs
      → (x : A) × (get_elem? xs pos ≡ some x)
        × (slice xs pos (suc size) ≡ x ∷ slice xs (suc pos) size)
  first_of_slice [] pos size h = absurd (omega arith)
  first_of_slice (x ∷ xs) zero size h = (x, refl, refl)
  first_of_slice (x ∷ xs) (suc pos) size h = first_of_slice xs pos size (omega arith)

  -- A part of a list that is not empty: its first item, and the part that follows.
  pub slice-suc :
      (xs : List A) (pos size : ℕ)
      → pos + suc size ≤ length xs
      → (x : A) × (get_elem? xs pos ≡ some x)
        × (slice xs pos (suc size) ≡ x ∷ slice xs (pos + 1) size)
  slice-suc xs pos size h = rw add-one (first_of_slice xs pos size h)
