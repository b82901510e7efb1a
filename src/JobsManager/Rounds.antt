-- ===== src/JobsManager/Rounds.antt =====
-- The rounds of the `Manager` of babel/src/jobs_manager.rs: `update_jobs`, and the reports of the
-- job runners. What each job meets in a round, its `World`, is given for its name.
use Prim.Native.String.{String}
use blockvisor.Common.Assoc.{lookup, insert}
use blockvisor.Jobs.{
  Message, pending, running, finished, stopped, JobState, active, inactive, Job, push_log,
  register_restart, save_status,
}
use blockvisor.JobsManager.{
  Entry, JobsMap, World, or_log, start_job, handle_stopped_job, deps_finished, Deps, not_yet,
  satisfied, failed,
}
use blockvisor.Common.{ℕ, Bool, Option, none, some, List, [], ◌∷◌, if◌then◌else◌}
pub mod Starts
pub mod Active
pub mod Names
pub mod Final

abbrev pub map_entries : (String → Entry → Entry) → JobsMap → JobsMap
map_entries f [] = []
map_entries f ((name, entry) ∷ jobs) = (name, f name entry) ∷ map_entries f jobs

-- A job that can never start, since a job that it needs is missing, has failed or was stopped.
-- Only the status is assigned: the timestamp of the state stays.
unfoldable pub fail_deps : World → String → Message → ℕ → Entry → Entry
fail_deps world name message timestamp entry =
    let job = record entry.job { state = inactive (finished none message) timestamp } in
    or_log world name (push_log world.now message job) entry.file
      (save_status world.disk world.now job.state entry.file)

abbrev pub check_pending : World → Bool → String → ℕ → Entry → Deps → Entry
check_pending world has_job_runner name timestamp entry not_yet = entry
check_pending world has_job_runner name timestamp entry satisfied =
    start_job world has_job_runner name entry
check_pending world has_job_runner name timestamp entry (failed message) =
    fail_deps world name message timestamp entry

abbrev pub check_state : World → Bool → JobsMap → String → Entry → JobState → Entry
check_state world has_job_runner deps name entry (active pid start_time) = entry
check_state world has_job_runner deps name entry (inactive (pending names) timestamp) =
    check_pending world has_job_runner name timestamp entry
      (deps_finished name deps entry.job.config)
check_state world has_job_runner deps name entry (inactive running timestamp) =
    handle_stopped_job world has_job_runner name entry
check_state world has_job_runner deps name entry (inactive (finished code message) timestamp) =
    entry
check_state world has_job_runner deps name entry (inactive stopped timestamp) = entry

unfoldable pub check_inactive_job : World → Bool → JobsMap → String → Entry → Entry
check_inactive_job world has_job_runner deps name entry =
    check_state world has_job_runner deps name entry entry.job.state

-- The dependencies are looked up in the jobs as they were when the loop began.
unfoldable pub check_inactive_jobs : (String → World) → Bool → JobsMap → JobsMap
unfolding check_inactive_job
check_inactive_jobs worlds has_job_runner jobs =
    map_entries (λ name. check_inactive_job (worlds name) has_job_runner jobs name) jobs

abbrev pub check_runner : World → Bool → (ℕ → Bool) → String → Entry → JobState → Entry
check_runner world has_job_runner is_running name entry (active pid start_time) =
    if is_running pid then entry else handle_stopped_job world has_job_runner name entry
check_runner world has_job_runner is_running name entry (inactive status timestamp) = entry

unfoldable pub update_active_job : World → Bool → (ℕ → Bool) → String → Entry → Entry
update_active_job world has_job_runner is_running name entry =
    check_runner world has_job_runner is_running name entry entry.job.state

unfoldable pub update_active_jobs : (String → World) → Bool → (ℕ → Bool) → JobsMap → JobsMap
unfolding update_active_job
update_active_jobs worlds has_job_runner is_running jobs =
    map_entries (λ name. update_active_job (worlds name) has_job_runner is_running name) jobs

abbrev pub active_pid : JobState → Option ℕ
active_pid (active pid start_time) = some pid
active_pid (inactive status timestamp) = none

abbrev pub cons_some : Option ℕ → List ℕ → List ℕ
cons_some none pids = pids
cons_some (some pid) pids = pid ∷ pids

-- The processes that the manager then watches.
abbrev pub watched : JobsMap → List ℕ
watched [] = []
watched ((name, entry) ∷ jobs) = cons_some (active_pid entry.job.state) (watched jobs)

-- `update_jobs`: the two loops meet worlds of their own.
unfoldable pub update_jobs :
    (String → World) → (String → World) → Bool → (ℕ → Bool) → JobsMap → JobsMap × List ℕ
unfolding update_active_jobs check_inactive_jobs
update_jobs worlds worlds' has_job_runner is_running jobs =
    let updated =
      check_inactive_jobs worlds' has_job_runner
        (update_active_jobs worlds has_job_runner is_running jobs) in
    (updated, watched updated)

pub data JobReport : Type 0 where
  report_log : String → Message → JobReport
  report_restart : String → JobReport

abbrev pub change_job : String → (Job → Job) → Option Entry → JobsMap → JobsMap
change_job name change none jobs = jobs
change_job name change (some entry) jobs =
    insert name (record entry { job = change entry.job }) jobs

-- `None` is a closed channel.
unfoldable pub handle_job_report : ℕ → Option JobReport → JobsMap → JobsMap
handle_job_report now none jobs = jobs
handle_job_report now (some (report_log name message)) jobs =
    change_job name (push_log now message) (lookup name jobs) jobs
handle_job_report now (some (report_restart name)) jobs =
    change_job name (register_restart now) (lookup name jobs) jobs
