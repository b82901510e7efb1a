-- ===== src/Plugin/Calls.antt =====
-- What the runs of babel_api/src/rhai_plugin.rs that return have called.
use blockvisor.Common.{
  ◌≡◌, refl, sym, ap, subst, ◌∙◌, ◌⊎◌, inl, inr, Bool, true, false, Option, none, some, List, [],
  ◌∷◌, ◌++◌, arith,
}
use Prim.Native.String.{String}
use blockvisor.Common.Outcome.{Outcome, ok, err, out_of_fuel}
use blockvisor.Jobs.{JobConfig, or_none}
use blockvisor.Plugin.{Job, Service}
use blockvisor.Plugin.Builders.{when_used, build_job_config, build_service_job_config}
use blockvisor.Plugin.Validation.{items_of, names_of_jobs}
use blockvisor.Plugin.Init.{
  Call, created, started, Engine, InitError, Run, and_then, done, call, with_needs, or_needs,
  create_and_start_job, start_jobs, run_jobs, start_services,
}

abbrev pub Called : Call → List Call → Type 0
Called c [] = ⊥
Called c (x ∷ calls) = (x ≡ c) ⊎ Called c calls

abbrev pub IsServiceOf : Service → List Service → Type 0
IsServiceOf service [] = ⊥
IsServiceOf service (x ∷ services) = (x ≡ service) ⊎ IsServiceOf service services

abbrev pub IsJobOf : Job → List Job → Type 0
IsJobOf job [] = ⊥
IsJobOf job (x ∷ jobs) = (x ≡ job) ⊎ IsJobOf job jobs

pub Called-before : (c : Call) (xs ys : List Call) → Called c xs → Called c (xs ++ ys)
Called-before c [] ys h = absurd h
Called-before c (x ∷ xs) ys (inl e) = inl e
Called-before c (x ∷ xs) ys (inr h) = inr (Called-before c xs ys h)

pub Called-after : (c : Call) (xs ys : List Call) → Called c ys → Called c (xs ++ ys)
Called-after c [] ys h = h
Called-after c (x ∷ xs) ys h = inr (Called-after c xs ys h)

-- A run that returns: its first part returned, and the rest did.
pub and_then-success {ℓ κ} :
    {A : Type ℓ} {B : Type κ} (run : Run A) (f : A → Run B) (b : B)
    → (and_then run f).1 ≡ ok b
    → (a : A) × (run.1 ≡ ok a) × ((f a).1 ≡ ok b) × ((and_then run f).0 ≡ run.0 ++ (f a).0)
and_then-success (calls, ok a) f b h = (a, refl, h, refl)
and_then-success (calls, err e) f b h = absurd (ground arith)
and_then-success (calls, out_of_fuel) f b h = absurd (ground arith)

-- What the rest of such a run has called, the run has called.
pub and_then-rest {ℓ κ} :
    {A : Type ℓ} {B : Type κ} (run : Run A) (f : A → Run B) (b : B)
    → (and_then run f).1 ≡ ok b
    → (a : A) × (run.1 ≡ ok a)
      × ((f a).1 ≡ ok b)
      × ((c : Call) → Called c (f a).0 → Called c (and_then run f).0)
and_then-rest run f b h =
    let (a, first, rest, calls) = and_then-success run f b h in
    (a, first, rest, λ c there. rw calls (Called-after c run.0 (f a).0 there))

pub call-Called : (c : Call) (b : Bool) → Called c (call c b).0
call-Called c true = inl refl
call-Called c false = inl refl

abbrev pub names_of : Outcome InitError (List String) → List String
names_of (ok names) = names
names_of (err e) = []
names_of out_of_fuel = []

module _ (engine : Engine) where
  pub start_jobs-names :
      (jobs : List Job) (needs names : List String)
      → (start_jobs engine jobs needs).1 ≡ ok names
      → names ≡ names_of_jobs jobs
  unfolding start_jobs
  start_jobs-names [] needs [] h = refl
  start_jobs-names [] needs (n ∷ names) h = absurd (ground arith)
  start_jobs-names (job ∷ jobs) needs names h =
      let (u, _, h', _) =
        and_then-success
          (create_and_start_job engine job.name (build_job_config (with_needs needs job)))
          (λ u. and_then (start_jobs engine jobs needs) λ rest. done (job.name ∷ rest)) names h in
      let (rest, started_rest, e, _) =
        and_then-success (start_jobs engine jobs needs) (λ rest. done (job.name ∷ rest)) names h' in
      sym (ap names_of e) ∙ ap (◌∷◌ job.name) (start_jobs-names jobs needs rest started_rest)

  pub run_jobs-names :
      (jobs : Option (List Job)) (needs names : List String)
      → (run_jobs engine jobs needs).1 ≡ ok names
      → names ≡ or_needs needs (names_of_jobs (items_of jobs))
  unfolding run_jobs
  run_jobs-names none needs names h = sym (ap names_of h)
  run_jobs-names (some jobs) needs names h =
      let (rest, ran, e, _) =
        and_then-success (start_jobs engine jobs needs) (λ rest. done (or_needs needs rest)) names
          h in
      sym (ap names_of e) ∙ ap (or_needs needs) (start_jobs-names jobs needs rest ran)

  pub create_and_start_job-created :
      (name : String) (config : JobConfig)
      → (create_and_start_job engine name config).1 ≡ ok tt
      → Called (created name config) (create_and_start_job engine name config).0
  unfolding create_and_start_job
  create_and_start_job-created name config h =
      let (u, first, _, calls) =
        and_then-success (call (created name config) (engine.create_job name config))
          (λ u. call (started name) (engine.start_job name)) tt h in
      rw calls (
        Called-before (created name config)
          (call (created name config) (engine.create_job name config)).0
          (call (started name) (engine.start_job name)).0
          (call-Called (created name config) (engine.create_job name config)))

  pub start_jobs-created :
      (jobs : List Job) (needs names : List String) (job : Job)
      → (start_jobs engine jobs needs).1 ≡ ok names
      → IsJobOf job jobs
      → Called
          (created job.name (build_job_config (with_needs needs job)))
          (start_jobs engine jobs needs).0
  unfolding start_jobs
  start_jobs-created [] needs names job h there = absurd there
  start_jobs-created (x ∷ jobs) needs names job h there =
      let config = build_job_config (with_needs needs x) in
      let first = create_and_start_job engine x.name config in
      let rest : Run (List String) =
        and_then (start_jobs engine jobs needs) λ rest. done (x.name ∷ rest) in
      let (_, first_ok, h', calls) = and_then-success first (λ u. rest) names h in
      let (others, others_ok, _, calls') =
        and_then-success (start_jobs engine jobs needs) (λ rest. done (x.name ∷ rest)) names h' in
      let c = created job.name (build_job_config (with_needs needs job)) in
      rw calls (elim there [
        | inl e ↦ Called-before c first.0 rest.0 (
            subst
              (λ (j : Job). Called (created j.name (build_job_config (with_needs needs j))) first.0)
              e (create_and_start_job-created x.name config first_ok))
        | inr h'' ↦ Called-after c first.0 rest.0 (
            rw calls' (
              Called-before c (start_jobs engine jobs needs).0 []
                (start_jobs-created jobs needs others job others_ok h'')))
      ])

  pub run_jobs-created :
      (jobs : Option (List Job)) (needs names : List String) (job : Job)
      → (run_jobs engine jobs needs).1 ≡ ok names
      → IsJobOf job (items_of jobs)
      → Called
          (created job.name (build_job_config (with_needs needs job)))
          (run_jobs engine jobs needs).0
  unfolding run_jobs
  run_jobs-created none needs names job h there = absurd there
  run_jobs-created (some jobs) needs names job h there =
      let (rest, started_rest, _, calls) =
        and_then-success (start_jobs engine jobs needs) (λ rest. done (or_needs needs rest)) names
          h in
      let c = created job.name (build_job_config (with_needs needs job)) in
      rw calls (
        Called-before c (start_jobs engine jobs needs).0 []
          (start_jobs-created jobs needs rest job started_rest there))

  pub start_services-created :
      (services : List Service) (needs wait_for : List String) (service : Service)
      → (start_services engine services needs wait_for).1 ≡ ok tt
      → IsServiceOf service services
      → Called
          (created service.name (build_service_job_config service needs wait_for))
          (start_services engine services needs wait_for).0
  unfolding start_services
  start_services-created [] needs wait_for service h there = absurd there
  start_services-created (x ∷ services) needs wait_for service h there =
      let first = create_and_start_job engine x.name (build_service_job_config x needs wait_for) in
      let rest = start_services engine services needs wait_for in
      let (u, first_ok, rest_ok, calls) = and_then-success first (λ u. rest) tt h in
      let c = created service.name (build_service_job_config service needs wait_for) in
      rw calls (elim there [
        | inl e ↦ Called-before c first.0 rest.0 (
            subst
              (λ (s : Service).
                Called (created s.name (build_service_job_config s needs wait_for)) first.0)
              e
              (create_and_start_job-created x.name (build_service_job_config x needs wait_for)
                first_ok))
        | inr h' ↦
            Called-after c first.0 rest.0
              (start_services-created services needs wait_for service rest_ok h')
      ])

pub used-needs :
    (used : Bool) (names : List String) → used ≡ true → or_none (when_used used names) ≡ names
used-needs true names h = refl
used-needs false names h = absurd (ground arith)
