-- ===== src/Plugin/Defaults.antt =====
-- `default_init`, `default_upload` and `recreate_services` of babel_api/src/rhai_plugin.rs.
use blockvisor.Common.{
  ℕ, Bool, true, false, ◌&&◌, Option, none, some, List, [], ◌∷◌, ◌++◌, any, retain, if◌then◌else◌,
}
use Prim.Native.String.{String}
use blockvisor.Common.Outcome.{err}
use blockvisor.Jobs.{JobConfig}
use blockvisor.Plugin.{
  Task, Service, AlternativeDownload, ColdInit, PluginConfig, download_job_name, cold_init_job_name,
  upload_job_name,
}
use blockvisor.Plugin.Builders.{
  build_alternative_download_job_config, build_cold_init_job_config, build_upload_job_config,
  build_multi_client_upload_job_config, build_multi_client_download_job_config,
}
use blockvisor.Plugin.Init.{
  Call, stopped_all, stopped, Engine, missing_plugin_config, engine_failed, Run, and_then, done,
  call, create_and_start_job, run_jobs, run_actions, render_configs_files, start_services,
  start_aux_services, add_tasks, has_store_key, is_multi_client,
}

abbrev pub is_archivable : Service → Bool
is_archivable service = service.archive && service.use_protocol_data && has_store_key service

abbrev pub upload_config : PluginConfig → Bool → List String → JobConfig
upload_config config true needs = build_multi_client_upload_job_config config.upload needs
upload_config config false needs = build_upload_job_config config.upload needs

-- The calls for the services that have a job; whether they are successful does not matter.
abbrev pub stop_existing : (String → Bool) → List Service → List Call
stop_existing has_job [] = []
stop_existing has_job (service ∷ services) =
    let rest = stop_existing has_job services in
    if has_job service.name then stopped service.name ∷ rest else rest

module _ (engine : Engine) where
  -- A job, and then those after the download; the names that services need.
  abbrev pub download_with :
      PluginConfig → (List String → JobConfig) → List String → Run (List String)
  download_with config build needs =
      and_then (create_and_start_job engine download_job_name (build needs))
        λ _. run_jobs engine config.post_download (download_job_name ∷ [])

  abbrev pub cold_init_or_none : Option ColdInit → List String → Run (List String)
  cold_init_or_none none needs = done needs
  cold_init_or_none (some cold_init) needs =
      and_then
        (create_and_start_job engine cold_init_job_name
          (build_cold_init_job_config cold_init needs))
        λ _. done (cold_init_job_name ∷ [])

  abbrev pub alternative_or_cold :
      PluginConfig → Option AlternativeDownload → List String → Run (List String)
  alternative_or_cold config none needs = cold_init_or_none config.cold_init needs
  alternative_or_cold config (some alternative) needs =
      download_with config (build_alternative_download_job_config alternative) needs

  -- Where there is a stamp, the data is there.
  abbrev pub by_stamp : PluginConfig → Option (Option ℕ) → List String → Run (List String)
  by_stamp config none needs = ([], err engine_failed)
  by_stamp config (some none) needs = alternative_or_cold config config.alternative_download needs
  by_stamp config (some (some stamp)) needs = done needs

  abbrev pub download_phase : PluginConfig → Bool → List String → Run (List String)
  download_phase config true needs =
      download_with config (build_multi_client_download_job_config config.download) needs
  download_phase config false needs = by_stamp config engine.protocol_data_stamp needs

  abbrev pub tasks_or_none : Option (List Task) → Run (Unit {0})
  tasks_or_none none = done tt
  tasks_or_none (some tasks) = add_tasks engine tasks

  unfoldable pub init_config : PluginConfig → Run (Unit {0})
  init_config config = and_then (call stopped_all engine.stop_all_jobs) λ _.
      and_then (render_configs_files engine config.config_files) λ _.
        and_then (start_aux_services engine config.aux_services) λ _.
          and_then (run_actions engine config.init []) λ needs.
            and_then (download_phase config (any is_multi_client config.services) needs) λ needs.
              and_then (start_services engine config.services needs [])
                λ _. tasks_or_none config.scheduled

  unfoldable pub default_init : Option PluginConfig → Run (Unit {0})
  unfolding init_config
  default_init none = ([], err missing_plugin_config)
  default_init (some config) = init_config config

  unfoldable pub stop_services : List Service → Run (Unit {0})
  stop_services [] = done tt
  stop_services (service ∷ services) =
      and_then (call (stopped service.name) (engine.stop_job service.name))
        λ _. stop_services services

  abbrev pub upload_phase : PluginConfig → List Service → Bool → List String → Run (List String)
  upload_phase config services false needs = done needs
  upload_phase config services true needs =
      and_then
        (create_and_start_job engine upload_job_name
          (upload_config config (any is_multi_client services) needs))
        λ _. done (upload_job_name ∷ [])

  unfoldable pub upload_services : PluginConfig → List Service → Run (Unit {0})
  unfolding stop_services
  upload_services config services = and_then (stop_services services) λ _.
      and_then (run_actions engine config.pre_upload []) λ needs.
        and_then (upload_phase config services (any is_archivable services) needs) λ needs.
          and_then (run_jobs engine config.post_upload needs)
            λ post_upload_jobs. start_services engine services [] post_upload_jobs

  unfoldable pub default_upload : Option PluginConfig → Run (Unit {0})
  unfolding upload_services
  default_upload none = ([], err missing_plugin_config)
  default_upload (some config) =
      upload_services config
        (retain (λ (service : Service). service.use_protocol_data) config.services)

  -- The jobs that there are, if the engine says.
  unfoldable pub recreate_services : Option PluginConfig → Option (String → Bool) → Run (Unit {0})
  recreate_services none current_jobs = done tt
  recreate_services (some config) none = ([], err engine_failed)
  recreate_services (some config) (some has_job) =
      let (calls, result) = start_services engine config.services [] [] in
      (stop_existing has_job config.services ++ calls, result)
