-- ===== src/Examples/Plugin.antt =====
-- A node of one service with a store key: the theorems on babel_api/src/plugin_config.rs and
-- babel_api/src/rhai_plugin.rs at concrete inputs.
use blockvisor.Common.{◌≡◌, refl, ◌↔◌, inl, true, none, some, [], ◌∷◌, All, List, drop}
use blockvisor.Common.Int.{pos}
use blockvisor.Common.Outcome.{ok}
use blockvisor.Jobs.{JobConfig}
use blockvisor.JobsManager.{satisfied, deps_finished}
use blockvisor.JobsManager.Needs.{Ended}
use blockvisor.Plugin.{Job, Service, PluginConfig}
use blockvisor.Plugin.Init.{Call, stopped, ran, created, Engine, run_actions, start_services}
use blockvisor.Plugin.Defaults.{default_init, default_upload}
use blockvisor.Plugin.Validation.{validate}
use blockvisor.Plugin.Validation.Unique.{IsValid}
use blockvisor.Plugin.Validation.Decides.{validate-decides}
use blockvisor.Plugin.Created.{Ordered}
use blockvisor.Plugin.Created.Whole.{default_init-Ordered}
use blockvisor.Plugin.Calls.{Called}
use blockvisor.Plugin.Stops.{default_upload-stops}
use blockvisor.Plugin.Resumes.{last_jobs, default_upload-waits}
use blockvisor.Examples.Jobs.{three_jobs}

abbrev a_job : Job
a_job = record {
  name = "prepare";
  run_sh = "prepare.sh";
  restart = none;
  shutdown_timeout_secs = none;
  shutdown_signal = none;
  needs = none;
  run_as = none;
  log_buffer_capacity_mb = none;
  log_timestamp = none;
  use_protocol_data = none;
  one_time = none;
}

abbrev a_service : Service
a_service = record {
  name = "node";
  run_sh = "node.sh";
  restart_config = none;
  shutdown_timeout_secs = none;
  shutdown_signal = none;
  run_as = none;
  use_protocol_data = true;
  log_buffer_capacity_mb = none;
  log_timestamp = none;
  data_dir = some "data";
  store_key = some "node-key_1";
  archive = true;
}

abbrev a_config : PluginConfig
a_config = record {
  config_files = none;
  aux_services = none;
  init = some (record { commands = "true" ∷ []; jobs = a_job ∷ [] });
  download = none;
  alternative_download = none;
  post_download = none;
  cold_init = none;
  services = a_service ∷ [];
  pre_upload = none;
  upload = none;
  post_upload = none;
  scheduled = none;
}

abbrev good_engine : Engine
good_engine = record {
  stop_all_jobs = true;
  stop_job = λ name. true;
  render_template = λ file. true;
  run_sh = λ command. some (pos 0);
  create_job = λ name config. true;
  start_job = λ name. true;
  add_task = λ task. true;
  protocol_data_stamp = some none;
}

accepted : validate a_config ≡ ok tt
unfolding validate
accepted = refl

validate-decides_example : (validate a_config ≡ ok tt) ↔ IsValid a_config
validate-decides_example = validate-decides a_config

default_init-Ordered_example : Ordered [] [] (default_init good_engine (some a_config)).0
default_init-Ordered_example =
    default_init-Ordered [] good_engine a_config (record { init = (tt, tt); post_download = tt })

-- A job is to run after the download.
abbrev post_config : PluginConfig
post_config = record a_config { post_download = some (record a_job { name = "unpack" } ∷ []) }

abbrev b_config : PluginConfig
b_config = record a_config { pre_upload = some (record { commands = "true" ∷ []; jobs = [] }) }

-- The service is stopped, a command is run, and these calls follow.
abbrev later_calls : List Call
later_calls = drop 2 (default_upload good_engine (some b_config)).0

uploads : (default_upload good_engine (some b_config)).0 ≡ stopped "node" ∷ ran "true" ∷ later_calls
unfolding default_upload run_actions
uploads = refl

uploads-success : (default_upload good_engine (some b_config)).1 ≡ ok tt
unfolding default_upload run_actions start_services
uploads-success = refl

default_upload-stops_example : Called (stopped "node") (stopped "node" ∷ [])
default_upload-stops_example =
    default_upload-stops good_engine b_config a_service (stopped "node" ∷ []) later_calls
      (ran "true") (inl refl) refl refl uploads

default_upload-waits_example :
    (job_config : JobConfig) × Called
      (created "node" job_config)
      (default_upload good_engine (some b_config)).0
    × ((deps_finished "node" three_jobs job_config ≡ satisfied)
        ↔ All (Ended three_jobs) (last_jobs b_config))
default_upload-waits_example =
    default_upload-waits good_engine b_config a_service three_jobs uploads-success (inl refl) refl
