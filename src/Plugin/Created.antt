-- ===== src/Plugin/Created.antt =====
-- In which order the runs of babel_api/src/rhai_plugin.rs create jobs, and of which types.
use blockvisor.Common.{◌≡◌, Bool, true, false, ◌||◌, List, [], ◌∷◌, All}
use Prim.Native.String.{String}
use text.Mathlib.Text
use text.Mathlib.TextEquality.{eq_iff}
use blockvisor.Common.Outcome.{Outcome, ok, err, out_of_fuel}
use blockvisor.Jobs.{
  JobType, run_sh, download, upload, multi_client_upload, multi_client_download, waiting_for,
}
use blockvisor.Plugin.Names.{mem}
use blockvisor.Plugin.Init.{
  Call, stopped_all, stopped, rendered, ran, created, started, added, InitError, Run,
}
pub mod Order
pub mod Runs
pub mod Whole

-- The names of the jobs that are created.
abbrev pub after_call : List String → Call → List String
after_call seen stopped_all = seen
after_call seen (stopped name) = seen
after_call seen (rendered file) = seen
after_call seen (ran command) = seen
after_call seen (created name config) = name ∷ seen
after_call seen (started name) = seen
after_call seen (added task) = seen

abbrev pub after_calls : List String → List Call → List String
after_calls seen [] = seen
after_calls seen (c ∷ calls) = after_calls (after_call seen c) calls

-- A transfer of one archive for the whole node.
abbrev pub is_single : JobType → Bool
is_single (run_sh script) = false
is_single (download connections runners) = true
is_single (upload exclude compression connections runners chunks expires version) = true
is_single (multi_client_upload connections runners expires version) = false
is_single (multi_client_download connections runners) = false

-- The name is one of those that jobs declare to need, or a job of this name was created before.
abbrev pub known : List String → List String → String → Bool
known declared seen name = mem name declared || mem name seen

abbrev pub AllKnown : List String → List String → List String → Type 0
AllKnown declared seen names = All (λ (name : String). known declared seen name ≡ true) names

-- What is to hold of each call; where no job is created, there is nothing to ask.
abbrev pub IsOrdered : List String → List String → Call → Type 0
IsOrdered declared seen (created name config) =
    AllKnown declared seen (waiting_for config) × (is_single config.job_type ≡ false)
IsOrdered declared seen stopped_all = Unit {0}
IsOrdered declared seen (stopped name) = Unit {0}
IsOrdered declared seen (rendered file) = Unit {0}
IsOrdered declared seen (ran command) = Unit {0}
IsOrdered declared seen (started name) = Unit {0}
IsOrdered declared seen (added task) = Unit {0}

abbrev pub Ordered : List String → List String → List Call → Type 0
Ordered declared seen [] = Unit {0}
Ordered declared seen (c ∷ calls) =
    IsOrdered declared seen c × Ordered declared (after_call seen c) calls

-- A run whose calls are in order, and where it returns, its result is as is said.
abbrev Returns {ℓ} : {A : Type ℓ} → (A → Type 0) → Outcome InitError A → Type 0
Returns P (ok a) = P a
Returns P (err e) = Unit {0}
Returns P out_of_fuel = Unit {0}

pub record Good {ℓ} {A : Type ℓ} (declared seen : List String) (P : List String → A → Type 0)
    (run : Run A) : Type ℓ where
  pub ordered : Ordered declared seen run.0
  pub returns : Returns (P (after_calls seen run.0)) run.1
