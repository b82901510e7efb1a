-- ===== src/Plugin/Created/Order.antt =====
-- The parts of `default_init` (babel_api/src/rhai_plugin.rs) create jobs in order.
use blockvisor.Common.{
  ◌≡◌, refl, sym, subst, Bool, true, false, Option, none, some, List, [], ◌∷◌, ◌++◌, arith, All,
}
use Prim.Native.String.{String}
use text.Mathlib.TextEquality.{eq_iff}
use blockvisor.Common.Outcome.{ok, err, out_of_fuel}
use blockvisor.Jobs.{JobConfig, or_none, waiting_for}
use blockvisor.Plugin.{Job}
use blockvisor.Plugin.Names.{mem}
use blockvisor.Plugin.Builders.{build_job_config}
use blockvisor.Plugin.Init.{
  Call, stopped_all, stopped, rendered, ran, created, started, added, Engine, Run, and_then, done,
  call, joined, with_needs, or_needs, create_and_start_job, start_jobs, run_jobs,
}
use blockvisor.Plugin.Validation.{items_of}
use blockvisor.Plugin.Created.{
  after_call, after_calls, is_single, known, AllKnown, IsOrdered, Ordered, Returns, Good,
}

after_calls-append :
    (seen : List String) (xs ys : List Call)
    → after_calls seen (xs ++ ys) ≡ after_calls (after_calls seen xs) ys
after_calls-append seen [] ys = refl
after_calls-append seen (x ∷ xs) ys = after_calls-append (after_call seen x) xs ys

Ordered-append :
    (declared seen : List String) (xs ys : List Call)
    → Ordered declared seen xs
    → Ordered declared (after_calls seen xs) ys
    → Ordered declared seen (xs ++ ys)
Ordered-append declared seen [] ys first second = second
Ordered-append declared seen (x ∷ xs) ys (here, first) second =
    (here, Ordered-append declared (after_call seen x) xs ys first second)

AllKnown-append :
    (declared seen xs ys : List String)
    → AllKnown declared seen xs
    → AllKnown declared seen ys
    → AllKnown declared seen (xs ++ ys)
AllKnown-append declared seen [] ys first second = second
AllKnown-append declared seen (x ∷ xs) ys (here, first) second =
    (here, AllKnown-append declared seen xs ys first second)

-- What was known is still known.
abbrev pub Extends : List String → List String → List String → Type 0
Extends declared seen seen' =
    (name : String) → known declared seen name ≡ true → known declared seen' name ≡ true

pub AllKnown-extended :
    (declared seen seen' names : List String)
    → Extends declared seen seen'
    → AllKnown declared seen names
    → AllKnown declared seen' names
AllKnown-extended declared seen seen' [] extends h = tt
AllKnown-extended declared seen seen' (name ∷ names) extends (here, h) =
    (extends name here, AllKnown-extended declared seen seen' names extends h)

Extends-after_call :
    (declared seen : List String) (c : Call) → Extends declared seen (after_call seen c)
Extends-after_call declared seen stopped_all name h = h
Extends-after_call declared seen (stopped other) name h = h
Extends-after_call declared seen (rendered file) name h = h
Extends-after_call declared seen (ran command) name h = h
Extends-after_call declared seen (created other config) name h = ground (arith, h)
Extends-after_call declared seen (started other) name h = h
Extends-after_call declared seen (added task) name h = h

module _ (declared : List String) where
  pub and_then-Good {ℓ κ} :
      {A : Type ℓ} {B : Type κ} (P : List String → A → Type 0) (Q : List String → B → Type 0)
      (seen : List String) (run : Run A) (f : A → Run B)
      → Good declared seen P run
      → ((a : A) (seen' : List String) → P seen' a → Good declared seen' Q (f a))
      → Good declared seen Q (and_then run f)
  and_then-Good P Q seen (calls, ok a) f g next =
      let seen' = after_calls seen calls in
      let h = next a seen' g.returns in
      record {
        ordered = Ordered-append declared seen calls (f a).0 g.ordered h.ordered;
        returns =
            subst (λ s. Returns (Q s) (f a).1) (sym (after_calls-append seen calls (f a).0))
              h.returns;
      }
  and_then-Good P Q seen (calls, err e) f g next = record { ordered = g.ordered; returns = tt }
  and_then-Good P Q seen (calls, out_of_fuel) f g next = record {
    ordered = g.ordered;
    returns = tt;
  }

  pub weaken {ℓ} :
      {A : Type ℓ} (seen : List String) (P Q : List String → A → Type 0) (run : Run A)
      → ((seen' : List String) (a : A) → P seen' a → Q seen' a)
      → Good declared seen P run
      → Good declared seen Q run
  weaken seen P Q (calls, ok a) f g = record {
    ordered = g.ordered;
    returns = f (after_calls seen calls) a g.returns;
  }
  weaken seen P Q (calls, err e) f g = record { ordered = g.ordered; returns = tt }
  weaken seen P Q (calls, out_of_fuel) f g = record { ordered = g.ordered; returns = tt }

  pub done-Good {ℓ} :
      {A : Type ℓ} (P : List String → A → Type 0) (seen : List String) (a : A)
      → P seen a
      → Good declared seen P (done a)
  done-Good P seen a h = record { ordered = tt; returns = h }

  -- Nothing that was known is forgotten.
  abbrev pub Grown : List String → List String → Unit {0} → Type 0
  Grown seen seen' u = Extends declared seen seen'

  pub call-Good :
      (seen : List String) (c : Call) (b : Bool)
      → IsOrdered declared seen c
      → Good declared seen (Grown seen) (call c b)
  call-Good seen c true h = record {
    ordered = (h, tt);
    returns = Extends-after_call declared seen c;
  }
  call-Good seen c false h = record { ordered = (h, tt); returns = tt }

  abbrev pub GrownNames : List String → List String → List String → Type 0
  GrownNames seen seen' names = Extends declared seen seen' × AllKnown declared seen' names

  abbrev pub Created : List String → String → List String → Unit {0} → Type 0
  Created seen name seen' u = Extends declared seen seen' × (known declared seen' name ≡ true)

  create-Good :
      (seen : List String) (name : String) (config : JobConfig) (b : Bool)
      → IsOrdered declared seen (created name config)
      → Good declared seen (Created seen name) (call (created name config) b)
  create-Good seen name config true h = record {
    ordered = (h, tt);
    returns = (
      Extends-after_call declared seen (created name config),
      ground (arith, (eq_iff name name).1 refl),
    );
  }
  create-Good seen name config false h = record { ordered = (h, tt); returns = tt }

  pub create_and_start_job-Good :
      (engine : Engine) (seen : List String) (name : String) (config : JobConfig)
      → AllKnown declared seen (waiting_for config)
      → is_single config.job_type ≡ false
      → Good declared seen (Created seen name) (create_and_start_job engine name config)
  unfolding create_and_start_job
  create_and_start_job-Good engine seen name config needs single =
      and_then-Good (Created seen name) (Created seen name) seen
        (call (created name config) (engine.create_job name config))
        (λ u. call (started name) (engine.start_job name))
        (create-Good seen name config (engine.create_job name config) (needs, single))
        (λ u seen' (extends, there).
          weaken seen' (Grown seen') (Created seen name)
            (call (started name) (engine.start_job name))
            (λ s u' grown. ((λ n h. grown n (extends n h)), grown name there))
            (call-Good seen' (started name) (engine.start_job name) tt))

  -- What jobs need of their own is declared.
  abbrev pub DeclaredNeeds : Job → Type 0
  DeclaredNeeds job = All (λ (name : String). mem name declared ≡ true) (or_none job.needs)

  AllKnown-declared :
      (seen names : List String)
      → All (λ (name : String). mem name declared ≡ true) names
      → AllKnown declared seen names
  AllKnown-declared seen [] h = tt
  AllKnown-declared seen (name ∷ names) (here, h) =
      (ground (arith, here), AllKnown-declared seen names h)

  joined-AllKnown :
      (seen : List String) (own : Option (List String)) (needs : List String)
      → All (λ (name : String). mem name declared ≡ true) (or_none own)
      → AllKnown declared seen needs
      → AllKnown declared seen (joined own needs)
  joined-AllKnown seen none needs d h = h
  joined-AllKnown seen (some own) needs d h =
      AllKnown-append declared seen own needs (AllKnown-declared seen own d) h

  job-AllKnown :
      (seen : List String) (job : Job) (needs : List String)
      → DeclaredNeeds job
      → AllKnown declared seen needs
      → AllKnown declared seen (waiting_for (build_job_config (with_needs needs job)))
  unfolding waiting_for build_job_config
  job-AllKnown seen job needs d h =
      AllKnown-append declared seen (joined job.needs needs) []
        (joined-AllKnown seen job.needs needs d h) tt

  start_jobs-Good :
      (engine : Engine) (jobs : List Job) (seen needs : List String)
      → All DeclaredNeeds jobs
      → AllKnown declared seen needs
      → Good declared seen (GrownNames seen) (start_jobs engine jobs needs)
  unfolding start_jobs build_job_config
  start_jobs-Good engine [] seen needs d h = done-Good (GrownNames seen) seen [] ((λ n k. k), tt)
  start_jobs-Good engine (job ∷ jobs) seen needs (d, ds) h =
      and_then-Good (Created seen job.name) (GrownNames seen) seen
        (create_and_start_job engine job.name (build_job_config (with_needs needs job)))
        (λ u. and_then (start_jobs engine jobs needs) λ names. done (job.name ∷ names))
        (create_and_start_job-Good engine seen job.name (build_job_config (with_needs needs job))
          (job-AllKnown seen job needs d h) refl)
        (λ u seen' (extends, there).
          and_then-Good (GrownNames seen') (GrownNames seen) seen' (start_jobs engine jobs needs)
            (λ names. done (job.name ∷ names))
            (start_jobs-Good engine jobs seen' needs ds
              (AllKnown-extended declared seen seen' needs extends h))
            (λ names seen2 (grown, all).
              done-Good (GrownNames seen) seen2 (job.name ∷ names)
                ((λ n k. grown n (extends n k)), (grown job.name there, all))))

  or_needs-AllKnown :
      (seen needs names : List String)
      → AllKnown declared seen needs
      → AllKnown declared seen names
      → AllKnown declared seen (or_needs needs names)
  or_needs-AllKnown seen needs [] h k = h
  or_needs-AllKnown seen needs (name ∷ names) h k = k

  pub run_jobs-Good :
      (engine : Engine) (jobs : Option (List Job)) (seen needs : List String)
      → All DeclaredNeeds (items_of jobs)
      → AllKnown declared seen needs
      → Good declared seen (GrownNames seen) (run_jobs engine jobs needs)
  unfolding run_jobs
  run_jobs-Good engine none seen needs d h = done-Good (GrownNames seen) seen needs ((λ n k. k), h)
  run_jobs-Good engine (some jobs) seen needs d h =
      and_then-Good (GrownNames seen) (GrownNames seen) seen (start_jobs engine jobs needs)
        (λ names. done (or_needs needs names)) (start_jobs-Good engine jobs seen needs d h)
        (λ names seen' (extends, all). done-Good (GrownNames seen) seen' (or_needs needs names) (
          extends,
          or_needs-AllKnown seen' needs names
              (AllKnown-extended declared seen seen' needs extends h) all,
        ))
