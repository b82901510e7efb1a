-- ===== src/Plugin/Resumes.antt =====
-- The services that `default_upload` (babel_api/src/rhai_plugin.rs) creates again, and when the
-- manager of babel/src/jobs_manager.rs starts them.
use blockvisor.Common.{
  ◌≡◌, refl, sym, ap, subst, ◌∙◌, ◌↔◌, Bool, true, false, Option, none, some, List, [], ◌∷◌, All,
  any,
}
use Prim.Native.String.{String}
use blockvisor.Common.Outcome.{ok}
use blockvisor.Jobs.{JobConfig}
use blockvisor.JobsManager.{JobsMap, satisfied, deps_finished}
use blockvisor.JobsManager.Needs.{Ended, deps_finished-satisfied}
use blockvisor.Plugin.{Actions, Service, PluginConfig, upload_job_name}
use blockvisor.Plugin.Builders.{build_service_job_config}
use blockvisor.Plugin.Validation.{items_of, names_of_jobs}
use blockvisor.Plugin.Init.{
  created, Engine, done, or_needs, create_and_start_job, run_commands, run_jobs, run_actions,
  is_multi_client,
}
use blockvisor.Plugin.Defaults.{
  is_archivable, upload_config, stop_services, upload_phase, upload_services, default_upload,
}
use blockvisor.Plugin.Created.Runs.{jobs_of_actions}
use blockvisor.Plugin.Calls.{
  Called, IsServiceOf, and_then-success, and_then-rest, run_jobs-names, start_services-created,
  used-needs, names_of,
}
use blockvisor.Plugin.Stops.{users, users-IsServiceOf}

or_none_needed : (names : List String) → or_needs [] names ≡ names
or_none_needed [] = refl
or_none_needed (name ∷ names) = refl

-- The jobs that are last before the services: those after the upload, or where there are none, the
-- upload, or where nothing is to be archived, the jobs before it.
abbrev before_services : PluginConfig → Bool → List String
before_services config true = upload_job_name ∷ []
before_services config false = names_of_jobs (jobs_of_actions config.pre_upload)

abbrev pub last_jobs : PluginConfig → List String
last_jobs config =
    or_needs (before_services config (any is_archivable (users config.services)))
      (names_of_jobs (items_of config.post_upload))

module _ (engine : Engine) where
  run_actions-names :
      (actions : Option Actions) (names : List String)
      → (run_actions engine actions []).1 ≡ ok names
      → names ≡ names_of_jobs (jobs_of_actions actions)
  unfolding run_actions
  run_actions-names none names h = sym (ap names_of h)
  run_actions-names (some actions) names h =
      let (_, _, ran, _) =
        and_then-success (run_commands engine actions.commands)
          (λ _. run_jobs engine (some actions.jobs) []) names h in
      run_jobs-names engine (some actions.jobs) [] names ran
      ∙ or_none_needed (names_of_jobs actions.jobs)

  upload_phase-names :
      (config : PluginConfig) (services : List Service) (archives : Bool)
      (needs names : List String)
      → needs ≡ names_of_jobs (jobs_of_actions config.pre_upload)
      → (upload_phase engine config services archives needs).1 ≡ ok names
      → names ≡ before_services config archives
  upload_phase-names config services false needs names before h = sym (ap names_of h) ∙ before
  upload_phase-names config services true needs names before h =
      let job = upload_config config (any is_multi_client services) needs in
      let (_, _, made, _) =
        and_then-success (create_and_start_job engine upload_job_name job)
          (λ _. done (upload_job_name ∷ [])) names h in
      sym (ap names_of made)

  upload_services-created :
      (config : PluginConfig) (service : Service)
      → (upload_services engine config (users config.services)).1 ≡ ok tt
      → IsServiceOf service (users config.services)
      → Called
          (created service.name (build_service_job_config service [] (last_jobs config)))
          (upload_services engine config (users config.services)).0
  unfolding upload_services
  upload_services-created config service h there =
      let services = users config.services in
      let archives = any is_archivable services in
      let (_, _, h1, lift1) = and_then-rest (stop_services engine services) _ tt h in
      let (needs, before, h2, lift2) =
        and_then-rest (run_actions engine config.pre_upload []) _ tt h1 in
      let (uploads, uploaded, h3, lift3) =
        and_then-rest (upload_phase engine config services archives needs) _ tt h2 in
      let (last, ran, h4, lift4) =
        and_then-rest (run_jobs engine config.post_upload uploads) _ tt h3 in
      let same : last ≡ last_jobs config =
        run_jobs-names engine config.post_upload uploads last ran
        ∙ ap (λ n. or_needs n (names_of_jobs (items_of config.post_upload)))
            (upload_phase-names config services archives needs uploads
              (run_actions-names config.pre_upload needs before) uploaded) in
      let made = start_services-created engine services [] last service h4 there in
      subst
        (λ n.
          Called (created service.name (build_service_job_config service [] n))
            (upload_services engine config services).0)
        same (lift1 _ (lift2 _ (lift3 _ (lift4 _ made))))

-- Where `default_upload` is successful, it has created the job of each service that uses protocol data
-- again, such that the manager of jobs finds its dependencies satisfied exactly where each of the jobs
-- after the upload has ended in any way; where there are none, where the upload has; and where no
-- service is to be archived either, where the jobs before the upload have.
pub default_upload-waits :
    (engine : Engine) (config : PluginConfig) (service : Service) (jobs : JobsMap)
    → (default_upload engine (some config)).1 ≡ ok tt
    → IsServiceOf service config.services
    → service.use_protocol_data ≡ true
    → (job_config : JobConfig) × Called
        (created service.name job_config)
        (default_upload engine (some config)).0
      × ((deps_finished service.name jobs job_config ≡ satisfied)
          ↔ All (Ended jobs) (last_jobs config))
unfolding default_upload build_service_job_config
default_upload-waits engine config service jobs h there used =
    let job_config = build_service_job_config service [] (last_jobs config) in
    let decides = deps_finished-satisfied service.name jobs job_config in
    let waits = used-needs service.use_protocol_data (last_jobs config) used in
    let needs = used-needs service.use_protocol_data [] used in
    (
      job_config,
      upload_services-created engine config service h
          (users-IsServiceOf config.services service used there),
      (
        λ ready. subst (All (Ended jobs)) waits (decides.0 ready).1,
        λ ended. decides.1 (rw needs tt, subst (All (Ended jobs)) (sym waits) ended),
      ),
    )
