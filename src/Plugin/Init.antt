-- ===== src/Plugin/Init.antt =====
-- What `default_init` and `default_upload` of babel_api/src/rhai_plugin.rs are made of: the calls of the
-- engine that a plugin without functions of its own makes. What the engine replies is given, and a
-- run is the list of its calls, also where it ends with an error.
use blockvisor.Common.{
  ℕ, zero, suc, Bool, true, false, ◌&&◌, Option, none, some, List, [], ◌∷◌, ◌++◌, map,
}
use Prim.Native.String.{String}
use blockvisor.Common.Outcome.{Outcome, ok, err, out_of_fuel}
use blockvisor.Common.Int.{ℤ, pos, negsuc}
use blockvisor.Jobs.{JobConfig}
use blockvisor.Plugin.{ConfigFile, AuxService, Task, Job, Actions, Service}
use blockvisor.Plugin.Builders.{build_job_config, build_service_job_config}

pub data Call : Type 0 where
  stopped_all : Call
  stopped : String → Call
  rendered : ConfigFile → Call
  ran : String → Call
  created : String → JobConfig → Call
  started : String → Call
  added : Task → Call

-- Whether the calls are successful; `run_sh` is the exit code, if the call returns, and
-- `protocol_data_stamp` the stamp, if there is one.
pub record Engine : Type 0 where
  pub stop_all_jobs : Bool
  pub stop_job : String → Bool
  pub render_template : ConfigFile → Bool
  pub run_sh : String → Option ℤ
  pub create_job : String → JobConfig → Bool
  pub start_job : String → Bool
  pub add_task : Task → Bool
  pub protocol_data_stamp : Option (Option ℕ)

pub data InitError : Type 0 where
  missing_plugin_config : InitError
  engine_failed : InitError
  command_failed : String → ℤ → InitError

abbrev pub Run {ℓ} : Type ℓ → Type ℓ
Run A = List Call × Outcome InitError A

abbrev pub and_then {ℓ κ} : {A : Type ℓ} {B : Type κ} → Run A → (A → Run B) → Run B
and_then (calls, ok a) f = let (more, result) = f a in (calls ++ more, result)
and_then (calls, err e) f = (calls, err e)
and_then (calls, out_of_fuel) f = (calls, out_of_fuel)

abbrev pub done {ℓ} : {A : Type ℓ} → A → Run A
done a = ([], ok a)

abbrev pub call : Call → Bool → Run (Unit {0})
call c true = (c ∷ [], ok tt)
call c false = (c ∷ [], err engine_failed)

abbrev pub joined : Option (List String) → List String → List String
joined none needs = needs
joined (some own) needs = own ++ needs

abbrev pub with_needs : List String → Job → Job
with_needs needs job = record job { needs = some (joined job.needs needs) }

abbrev pub or_needs : List String → List String → List String
or_needs needs [] = needs
or_needs needs (name ∷ names) = name ∷ names

abbrev pub aux_service : AuxService → Service
aux_service service = record {
  name = service.name;
  run_sh = service.run_sh;
  restart_config = service.restart_config;
  shutdown_timeout_secs = service.shutdown_timeout_secs;
  shutdown_signal = service.shutdown_signal;
  run_as = service.run_as;
  use_protocol_data = false;
  log_buffer_capacity_mb = service.log_buffer_capacity_mb;
  log_timestamp = service.log_timestamp;
  data_dir = none;
  store_key = none;
  archive = false;
}

abbrev pub has_store_key : Service → Bool
has_store_key service = elim service.store_key [ none ↦ false | some key ↦ true ]

abbrev pub is_multi_client : Service → Bool
is_multi_client service = service.archive && has_store_key service

module _ (engine : Engine) where
  unfoldable pub create_and_start_job : String → JobConfig → Run (Unit {0})
  create_and_start_job name config =
      and_then (call (created name config) (engine.create_job name config))
        λ _. call (started name) (engine.start_job name)

  -- The names of the jobs that are started.
  unfoldable pub start_jobs : List Job → List String → Run (List String)
  unfolding create_and_start_job
  start_jobs [] needs = done []
  start_jobs (job ∷ jobs) needs =
      and_then (create_and_start_job job.name (build_job_config (with_needs needs job)))
        λ _. and_then (start_jobs jobs needs) λ names. done (job.name ∷ names)

  unfoldable pub run_jobs : Option (List Job) → List String → Run (List String)
  unfolding start_jobs
  run_jobs none needs = done needs
  run_jobs (some jobs) needs = and_then (start_jobs jobs needs) λ names. done (or_needs needs names)

  abbrev pub check_exit : String → Option ℤ → Run (Unit {0})
  check_exit command none = (ran command ∷ [], err engine_failed)
  check_exit command (some (pos zero)) = (ran command ∷ [], ok tt)
  check_exit command (some (pos (suc code))) =
      (ran command ∷ [], err (command_failed command (pos (suc code))))
  check_exit command (some (negsuc code)) =
      (ran command ∷ [], err (command_failed command (negsuc code)))

  unfoldable pub run_commands : List String → Run (Unit {0})
  run_commands [] = done tt
  run_commands (command ∷ commands) =
      and_then (check_exit command (engine.run_sh command)) λ _. run_commands commands

  unfoldable pub run_actions : Option Actions → List String → Run (List String)
  unfolding run_commands run_jobs
  run_actions none needs = done needs
  run_actions (some actions) needs =
      and_then (run_commands actions.commands) λ _. run_jobs (some actions.jobs) needs

  unfoldable pub render_files : List ConfigFile → Run (Unit {0})
  render_files [] = done tt
  render_files (file ∷ files) =
      and_then (call (rendered file) (engine.render_template file)) λ _. render_files files

  unfoldable pub render_configs_files : Option (List ConfigFile) → Run (Unit {0})
  unfolding render_files
  render_configs_files none = done tt
  render_configs_files (some files) = render_files files

  unfoldable pub start_services : List Service → List String → List String → Run (Unit {0})
  unfolding create_and_start_job
  start_services [] needs wait_for = done tt
  start_services (service ∷ services) needs wait_for =
      and_then (create_and_start_job service.name (build_service_job_config service needs wait_for))
        λ _. start_services services needs wait_for

  unfoldable pub start_aux_services : Option (List AuxService) → Run (Unit {0})
  unfolding start_services
  start_aux_services none = done tt
  start_aux_services (some services) = start_services (map aux_service services) [] []

  unfoldable pub add_tasks : List Task → Run (Unit {0})
  add_tasks [] = done tt
  add_tasks (task ∷ tasks) =
      and_then (call (added task) (engine.add_task task)) λ _. add_tasks tasks
