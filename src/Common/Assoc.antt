-- ===== src/Common/Assoc.antt =====
-- A map from names, as the list of its entries.
use Prim.Native.String.{String}
use text.Mathlib.Text.{◌==◌}
use text.Mathlib.TextEquality.{eq_iff}
use Prim.Native.Nat.{suc}
use mathlib.Core.Path.{◌≡◌, refl}
use mathlib.Core.Bool.{true, false}
use mathlib.Core.List.{List, [], ◌∷◌}
use mathlib.Core.Option.{Option, none, some}
use native.Mathlib.Omega.{arith}
use blockvisor.Common.Lists.{length}
use blockvisor.Common.Tests.{if◌then◌else◌}

module _ {ℓ} {A : Type ℓ} where
  unfoldable pub lookup : String → List (String × A) → Option A
  lookup name [] = none
  lookup name ((first, value) ∷ entries) = elim (first == name) [
    | true ↦ some value
    | false ↦ lookup name entries
  ]

  -- The entry of a name that is there is replaced in its place.
  unfoldable pub insert : String → A → List (String × A) → List (String × A)
  insert name value [] = (name, value) ∷ []
  insert name value ((first, old) ∷ entries) = elim (first == name) [
    | true ↦ (first, value) ∷ entries
    | false ↦ (first, old) ∷ insert name value entries
  ]

  pub lookup-insert :
      (name other : String) (value : A) (entries : List (String × A))
      → lookup other (insert name value entries)
        ≡ (if name == other then some value else lookup other entries)
  unfolding lookup insert
  lookup-insert name other value [] = ground arith
  lookup-insert name other value ((first, old) ∷ entries) =
      let rest = lookup-insert name other value entries in
      ground (arith, rest, eq_iff first name, eq_iff first other, eq_iff name other)

  -- The number of entries grows by a new name only.
  pub length-insert :
      (name : String) (value : A) (entries : List (String × A))
      → length (insert name value entries) ≡ (
          let old = lookup name entries in
          elim old [ none ↦ suc (length entries) | some w ↦ length entries ])
  unfolding lookup insert
  length-insert name value [] = refl
  length-insert name value ((first, old) ∷ entries) =
      ground (arith, length-insert name value entries)
