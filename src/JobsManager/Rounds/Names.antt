-- ===== src/JobsManager/Rounds/Names.antt =====
-- A loop over the jobs of babel/src/jobs_manager.rs keeps their names.
use blockvisor.Common.{◌≡◌, refl, inl, inr, some, [], ◌∷◌, arith, length, Bool-cases}
use Prim.Native.String.{String}
use text.Mathlib.Text.{◌==◌ as ◌=s◌}
use text.Mathlib.TextEquality.{eq_iff}
use blockvisor.Common.Assoc.{lookup}
use blockvisor.JobsManager.{Entry, JobsMap}
use blockvisor.JobsManager.Rounds.{map_entries}

pub length-map_entries :
    (f : String → Entry → Entry) (jobs : JobsMap) → length (map_entries f jobs) ≡ length jobs
length-map_entries f [] = refl
length-map_entries f ((name, entry) ∷ jobs) = omega (arith, length-map_entries f jobs)

-- What is found after the loop was found before it.
pub lookup-map_entries :
    (f : String → Entry → Entry) (name : String) (jobs : JobsMap) (entry' : Entry)
    → lookup name (map_entries f jobs) ≡ some entry'
    → (entry : Entry) × (lookup name jobs ≡ some entry) × (entry' ≡ f name entry)
unfolding lookup
lookup-map_entries f name [] entry' h = absurd (ground arith)
lookup-map_entries f name ((j, entry) ∷ jobs) entry' h = elim (Bool-cases (j =s name)) [
  | inl e ↦ (entry, ground (arith, eq_iff j name), ground (arith, eq_iff j name))
  | inr e ↦
      let (found, is_there, same) = lookup-map_entries f name jobs entry' (ground arith) in
      (found, ground arith, same)
]

-- What was found before the loop is found after it.
pub lookup-map_found :
    (f : String → Entry → Entry) (name : String) (jobs : JobsMap) (entry : Entry)
    → lookup name jobs ≡ some entry
    → lookup name (map_entries f jobs) ≡ some (f name entry)
unfolding lookup
lookup-map_found f name [] entry h = absurd (ground arith)
lookup-map_found f name ((j, first) ∷ jobs) entry h = elim (Bool-cases (j =s name)) [
  | inl e ↦ ground (arith, eq_iff j name)
  | inr e ↦
      let rest = lookup-map_found f name jobs entry (ground arith) in ground (arith, eq_iff j name)
]
