-- ===== src/Plugin/Stops.antt =====
-- What `default_upload` and `recreate_services` (babel_api/src/rhai_plugin.rs) do before they make the
-- jobs of services again.
use blockvisor.Common.{
  ◌≡◌, Bool-cases, refl, sym, ap, subst, ◌∙◌, inl, inr, Bool, true, false, List, [], ◌∷◌, ◌++◌,
  arith, All, retain, some,
}
use blockvisor.Common.Outcome.{ok, err, out_of_fuel}
use Prim.Native.String.{String}
use blockvisor.Plugin.{Service, PluginConfig}
use blockvisor.Plugin.Init.{
  start_services, Call, stopped_all, stopped, rendered, ran, created, started, added, Engine, Run,
  and_then, call,
}
use blockvisor.Plugin.Defaults.{
  stop_existing, recreate_services, stop_services, default_upload, upload_services,
}
use blockvisor.Plugin.Calls.{
  Called, IsServiceOf, Called-before, Called-after, and_then-success, call-Called,
}

abbrev pub is_stop : Call → Bool
is_stop stopped_all = true
is_stop (stopped name) = true
is_stop (rendered file) = false
is_stop (ran command) = false
is_stop (created name config) = false
is_stop (started name) = false
is_stop (added task) = false

abbrev AllStops : List Call → Type 0
AllStops calls = All (λ (c : Call). is_stop c ≡ true) calls

abbrev head_or : Call → List Call → Call
head_or c [] = c
head_or c (x ∷ calls) = x

abbrev rest_of : List Call → List Call
rest_of [] = []
rest_of (x ∷ calls) = calls

-- Where a run begins with calls to stop, each of them comes before any call of another kind.
stops-first :
    (stops rest before after : List Call) (c : Call)
    → AllStops stops
    → is_stop c ≡ false
    → stops ++ rest ≡ before ++ c ∷ after
    → (stop : Call) → Called stop stops
    → Called stop before
stops-first [] rest before after c all other e stop there = absurd there
stops-first (x ∷ stops) rest [] after c (is, all) other e stop there =
    absurd (ground (arith, is, other, ap (λ calls. is_stop (head_or x calls)) e))
stops-first (x ∷ stops) rest (y ∷ before) after c (is, all) other e stop (inl same) =
    inl (sym (ap (head_or x) e) ∙ same)
stops-first (x ∷ stops) rest (y ∷ before) after c (is, all) other e stop (inr there) =
    inr (stops-first stops rest before after c all other (ap rest_of e) stop there)

no_other :
    (stops before after : List Call) (c : Call)
    → AllStops stops
    → is_stop c ≡ false
    → stops ≡ before ++ c ∷ after
    → ⊥
no_other [] [] after c all other e = absurd (ground arith)
no_other [] (y ∷ before) after c all other e = absurd (ground arith)
no_other (x ∷ stops) [] after c (is, all) other e =
    ground (arith, is, other, ap (λ calls. is_stop (head_or x calls)) e)
no_other (x ∷ stops) (y ∷ before) after c (is, all) other e =
    no_other stops before after c all other (ap rest_of e)

-- What the first part of a run stops, if it returns, comes before any call of another kind.
stopped-before {ℓ} :
    {A : Type ℓ} (run : Run (Unit {0})) (f : Unit {0} → Run A) (before after : List Call)
    (c stop : Call)
    → AllStops run.0
    → (run.1 ≡ ok tt → Called stop run.0)
    → is_stop c ≡ false
    → (and_then run f).0 ≡ before ++ c ∷ after
    → Called stop before
stopped-before (calls, ok tt) f before after c stop all stops other e =
    stops-first calls (f tt).0 before after c all other e stop (stops refl)
stopped-before (calls, err _) f before after c stop all stops other e =
    absurd (no_other calls before after c all other e)
stopped-before (calls, out_of_fuel) f before after c stop all stops other e =
    absurd (no_other calls before after c all other e)

call-AllStops :
    (c : Call) (b : Bool) (next : Run (Unit {0}))
    → is_stop c ≡ true
    → AllStops next.0
    → AllStops (and_then (call c b) λ _. next).0
call-AllStops c true next h all = (h, all)
call-AllStops c false next h all = (h, tt)

module _ (engine : Engine) where
  stop_services-AllStops : (services : List Service) → AllStops (stop_services engine services).0
  unfolding stop_services
  stop_services-AllStops [] = tt
  stop_services-AllStops (x ∷ services) =
      call-AllStops (stopped x.name) (engine.stop_job x.name) (stop_services engine services) refl
        (stop_services-AllStops services)

  stop_services-Called :
      (services : List Service) (service : Service)
      → (stop_services engine services).1 ≡ ok tt
      → IsServiceOf service services
      → Called (stopped service.name) (stop_services engine services).0
  unfolding stop_services
  stop_services-Called [] service h there = absurd there
  stop_services-Called (x ∷ services) service h there =
      let first = call (stopped x.name) (engine.stop_job x.name) in
      let rest = stop_services engine services in
      let (_, _, rest_ok, calls) = and_then-success first (λ _. rest) tt h in
      let c = stopped service.name in
      rw calls (elim there [
        | inl e ↦ Called-before c first.0 rest.0 (
            subst (λ (s : Service). Called (stopped s.name) first.0) e
              (call-Called (stopped x.name) (engine.stop_job x.name)))
        | inr h' ↦ Called-after c first.0 rest.0 (stop_services-Called services service rest_ok h')
      ])

kept-IsServiceOf :
    (b : Bool) (x service : Service) (services : List Service)
    → IsServiceOf service services
    → IsServiceOf service (elim b [ true ↦ x ∷ services | false ↦ services ])
kept-IsServiceOf true x service services there = inr there
kept-IsServiceOf false x service services there = there

-- The services that an upload stops and creates again.
abbrev pub users : List Service → List Service
users = retain (λ (s : Service). s.use_protocol_data)

pub users-IsServiceOf :
    (services : List Service) (service : Service)
    → service.use_protocol_data ≡ true
    → IsServiceOf service services
    → IsServiceOf service (users services)
users-IsServiceOf [] service used there = absurd there
users-IsServiceOf (x ∷ services) service used (inl e) =
    rw (ap (λ (s : Service). s.use_protocol_data) e ∙ used) (inl e)
users-IsServiceOf (x ∷ services) service used (inr there) =
    kept-IsServiceOf x.use_protocol_data x service (users services)
      (users-IsServiceOf services service used there)

-- Whatever the engine replies, and whether the upload ends with an error or not: before
-- `default_upload` makes any call but those that stop jobs, so before it runs a command, or creates
-- or starts a job, it has stopped each service that uses protocol data.
pub default_upload-stops :
    (engine : Engine) (config : PluginConfig) (service : Service) (before after : List Call)
    (c : Call)
    → IsServiceOf service config.services
    → service.use_protocol_data ≡ true
    → is_stop c ≡ false
    → (default_upload engine (some config)).0 ≡ before ++ c ∷ after
    → Called (stopped service.name) before
unfolding default_upload upload_services
default_upload-stops engine config service before after c there used other e =
    let services = users config.services in
    stopped-before (stop_services engine services) _ before after c (stopped service.name)
      (stop_services-AllStops engine services)
      (λ h.
        stop_services-Called engine services service h
          (users-IsServiceOf config.services service used there))
      other e

stop_existing-AllStops :
    (has_job : String → Bool) (services : List Service) → AllStops (stop_existing has_job services)
stop_existing-AllStops has_job [] = tt
stop_existing-AllStops has_job (x ∷ services) =
    let rest = stop_existing-AllStops has_job services in
    elim (Bool-cases (has_job x.name)) [ inl e ↦ rw e (refl, rest) | inr e ↦ rw e rest ]

stop_existing-Called :
    (has_job : String → Bool) (services : List Service) (service : Service)
    → has_job service.name ≡ true
    → IsServiceOf service services
    → Called (stopped service.name) (stop_existing has_job services)
stop_existing-Called has_job [] service has there = absurd there
stop_existing-Called has_job (x ∷ services) service has (inl e) =
    rw (ap (λ (s : Service). has_job s.name) e ∙ has) (inl (ap (λ (s : Service). stopped s.name) e))
stop_existing-Called has_job (x ∷ services) service has (inr there) =
    let rest = stop_existing-Called has_job services service has there in
    elim (Bool-cases (has_job x.name)) [ inl e ↦ rw e (inr rest) | inr e ↦ rw e rest ]

-- Before `recreate_services` makes any call but those that stop jobs, it has tried to stop each service
-- that has a job.
pub recreate_services-stops :
    (engine : Engine) (config : PluginConfig) (has_job : String → Bool) (service : Service)
    (before after : List Call) (c : Call)
    → IsServiceOf service config.services
    → has_job service.name ≡ true
    → is_stop c ≡ false
    → (recreate_services engine (some config) (some has_job)).0 ≡ before ++ c ∷ after
    → Called (stopped service.name) before
unfolding recreate_services
recreate_services-stops engine config has_job service before after c there has other e =
    stops-first (stop_existing has_job config.services)
      (start_services engine config.services [] []).0 before after c
      (stop_existing-AllStops has_job config.services) other e (stopped service.name)
      (stop_existing-Called has_job config.services service has there)
