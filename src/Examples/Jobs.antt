-- ===== src/Examples/Jobs.antt =====
-- A node with three jobs: the theorems on babel/src/jobs.rs and babel/src/jobs_manager.rs at concrete
-- inputs.
use blockvisor.Common.{
  ℕ, ◌≤◌, ◌≡◌, refl, ◌↔◌, inl, Bool, true, none, some, [], ◌∷◌, leb, if◌then◌else◌, length, All,
  List, ◌++◌, Option,
}
use blockvisor.Common.Assoc.{lookup}
use Prim.Native.String.{String}
use package.text.Mathlib.Text.{◌==◌ as ◌=s◌}
use blockvisor.Common.Int.{pos}
use blockvisor.Jobs.{
  Message, no_text, pending, running, finished, stopped, never, run_sh, JobConfig, JobState, active,
  inactive, Job, new, update, absent, saved, load_status, clear_status, JobStatus,
}
use blockvisor.Jobs.Logs.{recent, update-keeps}
use blockvisor.JobsManager.{
  Entry, JobsMap, World, deps_finished, satisfied, handle_stopped_job, start_job, restart, launch,
}
use blockvisor.JobsManager.Needs.{Succeeded, Ended, deps_finished-satisfied}
use blockvisor.JobsManager.Rounds.{
  map_entries, update_jobs, update_active_jobs, update_active_job, check_inactive_jobs,
  check_inactive_job,
}
use blockvisor.JobsManager.Rounds.Starts.{Starts, may_restart, handle_stopped_job-Starts}
use blockvisor.JobsManager.Rounds.Active.{Reason, update_jobs-active}
use blockvisor.JobsManager.Rounds.Final.{was_stopped, update_jobs-keeps}
use blockvisor.JobsManager.Requests.{create, shutdown}
use blockvisor.JobsManager.Requests.Bounded.{create_job, no_jobs, then_step, Reachable-bounded}
use blockvisor.JobsManager.Requests.Stopped.{interrupted, shutdown-success}

abbrev a_config : JobConfig
a_config = record {
  job_type = run_sh "init.sh";
  restart = never;
  shutdown_timeout_secs = none;
  shutdown_signal = none;
  needs = some ("init" ∷ []);
  wait_for = none;
  run_as = none;
  log_buffer_capacity_mb = none;
  log_timestamp = none;
  use_protocol_data = none;
  one_time = none;
}

-- How serde_json writes the statuses without fields.
abbrev text_of : JobStatus → Option String
text_of stopped = some "\"stopped\""
text_of running = some "\"running\""
text_of _ = none

abbrev status_of : String → Option JobStatus
status_of text =
    if text =s "\"stopped\""
    then some stopped
    else if text =s "\"running\""
    then some running
    else none

abbrev a_world : World
a_world = record {
  now = 100;
  disk = record { can_remove = true; can_write = true; to_string = text_of; from_str = status_of };
  spawn = λ name. some 7;
  error = "failed";
}

abbrev entry_of : JobState → Entry
entry_of state = record {
  job = record { config = a_config; state = state; logs = []; restart_stamps = [] };
  file = absent;
}

-- `init` has finished, `node` is to start when it has, and `old` was stopped.
abbrev pub three_jobs : JobsMap
three_jobs =
    ("init", entry_of (inactive (finished (some (pos 0)) no_text) 1))
    ∷ ("node", entry_of (inactive (pending ("init" ∷ [])) 2))
    ∷ ("old", entry_of (inactive stopped 3))
    ∷ []

abbrev running_jobs : JobsMap
running_jobs = ("node", entry_of (active 7 2)) ∷ ("old", entry_of (inactive stopped 3)) ∷ []

-- A day and 92 nanoseconds after the start of the clock only the second message is recent.
abbrev later_now : ℕ
later_now = 86_400_000_000_092

abbrev two_logs : Job
two_logs = record (new a_config (inactive stopped 1)) {
  logs = (90, no_text) ∷ (95, no_text) ∷ [];
  restart_stamps = 91 ∷ 93 ∷ [];
}

update-keeps_example :
    ((dropped : List (ℕ × Message)) × (recent later_now two_logs.logs
        ≡ dropped ++ (update later_now two_logs).logs)
      × (length dropped ≡ (if leb 1024 (length (recent later_now two_logs.logs)) then 1023 else 0)))
    × ((update later_now two_logs).restart_stamps ≡ 93 ∷ [])
update-keeps_example = update-keeps later_now two_logs

deps_finished-satisfied_example :
    (deps_finished "node" three_jobs a_config ≡ satisfied)
    ↔ (All (Succeeded three_jobs) ("init" ∷ []) × All (Ended three_jobs) [])
deps_finished-satisfied_example = deps_finished-satisfied "node" three_jobs a_config

handle_stopped_job-Starts_example :
    (may_restart never (some (running, 50)) ≡ true) × Starts a_world true "node" 7 100
unfolding handle_stopped_job start_job restart launch load_status clear_status
handle_stopped_job-Starts_example =
    handle_stopped_job-Starts a_world true "node"
      (record (entry_of (active 3 1)) { file = saved "\"running\"" 50 }) 7 100 refl

update_jobs-active_example :
    (entry : Entry) × (lookup "node" three_jobs ≡ some entry)
    × Reason (λ name. a_world) (λ name. a_world) true (λ pid. true) three_jobs "node" entry 7 100
unfolding update_jobs update_active_jobs update_active_job check_inactive_jobs check_inactive_job
    start_job launch clear_status deps_finished lookup
update_jobs-active_example =
    update_jobs-active (λ name. a_world) (λ name. a_world) true (λ pid. true) three_jobs "node"
      (entry_of (active 7 100)) 7 100 refl refl

update_jobs-keeps_example :
    lookup "old" (update_jobs (λ name. a_world) (λ name. a_world) true (λ pid. true) three_jobs).0
    ≡ some (entry_of (inactive stopped 3))
unfolding lookup
update_jobs-keeps_example =
    update_jobs-keeps (λ name. a_world) (λ name. a_world) true (λ pid. true) three_jobs "old"
      (entry_of (inactive stopped 3)) refl (was_stopped 3 refl)

abbrev terminates : ℕ → ℕ → Bool
terminates pid timeout = true

Reachable-bounded_example : length (create terminates a_world true true "node" a_config []).0 ≤ 16
Reachable-bounded_example =
    Reachable-bounded terminates (then_step no_jobs (create_job a_world true true "node" a_config))

shutdown-success_example : shutdown terminates true (λ name. a_world) running_jobs ≡ (
  map_entries (λ name entry. interrupted terminates 100 entry entry.job.state) running_jobs,
  none,
)
shutdown-success_example =
    shutdown-success terminates true (λ name. a_world) running_jobs (inl refl)
