-- ===== src/JobsManager.antt =====
-- babel/src/jobs_manager.rs: the jobs of a node, the client that is asked to create, start and stop
-- them, and the manager that starts a job when the jobs that it needs have finished, and again when
-- its runner has ended. The registry's lock makes each call and each round of the manager one step.
use Prim.Native.String.{String}
use blockvisor.Common.Assoc.{lookup}
use blockvisor.Common.Int.{pos, negsuc}
use blockvisor.Jobs.{
  Message, process_ended_unexpectedly, cannot_load_status, failed_to_clear_status, failed_to_start,
  failed_to_save_status, needs_undefined, needs_failed, needs_stopped, waits_for_undefined,
  JobStatus, pending, running, finished, stopped, RestartPolicy, never, always, on_failure,
  JobConfig, or_none, JobState, active, inactive, Job, set_active, set_inactive, register_restart,
  push_log, StatusFile, Disk, clear_status, save_status, load_status,
}
use blockvisor.Common.{ℕ, zero, suc, Bool, Option, none, some, List, [], ◌∷◌, if◌then◌else◌}
pub mod Rounds
pub mod Requests
pub mod Needs

-- A job and the status file in its directory.
pub record Entry : Type 0 where
  pub job : Job
  pub file : StatusFile

abbrev pub JobsMap : Type 0
JobsMap = List (String × Entry)

abbrev pub max_jobs : ℕ
max_jobs = 16

-- What a call meets: the time, the file system, the process that a runner starts as (`none` is an
-- error), and the texts of errors.
pub record World : Type 0 where
  pub now : ℕ
  pub disk : Disk
  pub spawn : String → Option ℕ
  pub error : String

-- `job_runner_lock` holds no checksum while the runner's binary is missing.
abbrev pub start_job_runner : World → Bool → String → Option ℕ
start_job_runner world has_job_runner name = if has_job_runner then world.spawn name else none

-- A status that `save_status` could not write is logged, and the file is left as it was.
abbrev pub or_log : World → String → Job → StatusFile → Option StatusFile → Entry
or_log world name job file none = record {
  job = push_log world.now (failed_to_save_status name world.error) job;
  file = file;
}
or_log world name job file (some file') = record { job = job; file = file' }

-- `start_job`, where the status file is cleared: the runner did not start, or it did.
abbrev pub not_launched : World → String → Job → StatusFile → Entry
not_launched world name job file =
    let message = failed_to_start name world.error in
    let failed_job =
      set_inactive world.now (finished none message) (push_log world.now message job) in
    or_log world name failed_job file (save_status world.disk world.now failed_job.state file)

abbrev pub launched : World → String → Job → StatusFile → Option ℕ → Entry
launched world name job file none = not_launched world name job file
launched world name job file (some pid) = record { job = set_active world.now pid job; file = file }

unfoldable pub launch : World → Bool → String → Job → StatusFile → Entry
launch world has_job_runner name job file =
    launched world name job file (start_job_runner world has_job_runner name)

abbrev pub cleared : World → Bool → String → Entry → Option StatusFile → Entry
cleared world has_job_runner name entry none = record entry {
  job =
      set_inactive world.now running
        (push_log world.now (failed_to_clear_status name world.error) entry.job);
}
cleared world has_job_runner name entry (some file) =
    launch world has_job_runner name entry.job file

unfoldable pub start_job : World → Bool → String → Entry → Entry
start_job world has_job_runner name entry =
    cleared world has_job_runner name entry (clear_status world.disk entry.file)

-- The status of a runner that ended, where it left none that can be read.
abbrev pub assumed_status : RestartPolicy → Message → JobStatus
assumed_status never message = finished none message
assumed_status (always config) message = running
assumed_status (on_failure config) message = running

unfoldable pub restart : World → Bool → String → Entry → Entry
unfolding start_job
restart world has_job_runner name entry = start_job world has_job_runner name (record entry {
  job = push_log world.now process_ended_unexpectedly (register_restart world.now entry.job);
})

abbrev pub settle : World → Bool → String → Entry → JobStatus → ℕ → Entry
settle world has_job_runner name entry (finished code message) timestamp = record entry {
  job = record entry.job { state = inactive (finished code message) timestamp };
}
settle world has_job_runner name entry stopped timestamp = record entry {
  job = record entry.job { state = inactive stopped timestamp };
}
settle world has_job_runner name entry (pending names) timestamp =
    restart world has_job_runner name entry
settle world has_job_runner name entry running timestamp = restart world has_job_runner name entry

abbrev pub ended : World → Bool → String → Entry → Option (JobStatus × ℕ) → Entry
ended world has_job_runner name entry (some (status, timestamp)) =
    settle world has_job_runner name entry status timestamp
ended world has_job_runner name entry none =
    let message = cannot_load_status name world.error in
    settle world has_job_runner name (record entry { job = push_log world.now message entry.job })
      (assumed_status entry.job.config.restart message) world.now

unfoldable pub handle_stopped_job : World → Bool → String → Entry → Entry
handle_stopped_job world has_job_runner name entry =
    ended world has_job_runner name entry (load_status world.disk entry.file)

-- The result of `deps_finished`: `Ok(false)`, `Ok(true)` or an error.
pub data Deps : Type 0 where
  not_yet : Deps
  satisfied : Deps
  failed : Message → Deps

abbrev pub needed_state : String → String → JobState → Deps → Deps
needed_state name needed_name (active pid start_time) rest = not_yet
needed_state name needed_name (inactive (finished none message) timestamp) rest =
    failed (needs_failed name needed_name none message)
needed_state name needed_name (inactive (finished (some (pos zero)) message) timestamp) rest = rest
needed_state name needed_name (inactive (finished (some (pos (suc n))) message) timestamp) rest =
    failed (needs_failed name needed_name (some (pos (suc n))) message)
needed_state name needed_name (inactive (finished (some (negsuc n)) message) timestamp) rest =
    failed (needs_failed name needed_name (some (negsuc n)) message)
needed_state name needed_name (inactive stopped timestamp) rest =
    failed (needs_stopped name needed_name)
needed_state name needed_name (inactive (pending names) timestamp) rest = not_yet
needed_state name needed_name (inactive running timestamp) rest = not_yet

abbrev pub needed : String → String → Option Entry → Deps → Deps
needed name needed_name none rest = failed (needs_undefined name needed_name)
needed name needed_name (some entry) rest = needed_state name needed_name entry.job.state rest

abbrev pub waited_state : JobState → Deps → Deps
waited_state (active pid start_time) rest = not_yet
waited_state (inactive (finished code message) timestamp) rest = rest
waited_state (inactive stopped timestamp) rest = rest
waited_state (inactive (pending names) timestamp) rest = not_yet
waited_state (inactive running timestamp) rest = not_yet

abbrev pub waited : String → String → Option Entry → Deps → Deps
waited name wait_for_name none rest = failed (waits_for_undefined name wait_for_name)
waited name wait_for_name (some entry) rest = waited_state entry.job.state rest

unfoldable pub check_wait_for : String → JobsMap → List String → Deps
check_wait_for name deps [] = satisfied
check_wait_for name deps (wait_for_name ∷ names) =
    waited name wait_for_name (lookup wait_for_name deps) (check_wait_for name deps names)

unfoldable pub check_needs : String → JobsMap → List String → Deps → Deps
check_needs name deps [] rest = rest
check_needs name deps (needed_name ∷ names) rest =
    needed name needed_name (lookup needed_name deps) (check_needs name deps names rest)

unfoldable pub deps_finished : String → JobsMap → JobConfig → Deps
unfolding check_needs check_wait_for
deps_finished name deps config =
    check_needs name deps (or_none config.needs)
      (check_wait_for name deps (or_none config.wait_for))
