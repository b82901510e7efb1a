-- ===== src/JobsManager/Rounds/Final.antt =====
-- The jobs that the rounds of babel/src/jobs_manager.rs leave alone.
use blockvisor.Common.{ℕ, ◌≡◌, refl, ap, ◌∙◌, Bool, true, Option, some, List}
use Prim.Native.String.{String}
use blockvisor.Common.Assoc.{lookup}
use blockvisor.Common.Int.{ℤ}
use blockvisor.Jobs.{Message, pending, finished, stopped, active, inactive}
use blockvisor.JobsManager.{Entry, JobsMap, World, not_yet, deps_finished}
use blockvisor.JobsManager.Rounds.{
  update_jobs, update_active_jobs, update_active_job, check_inactive_jobs, check_inactive_job,
}
use blockvisor.JobsManager.Rounds.Names.{lookup-map_found}

-- A job that a round leaves alone: one that has ended, one with a process that runs, or one that is
-- pending while its dependencies have not all ended and none has failed.
pub data Settled (is_running : ℕ → Bool) (jobs : JobsMap) (name : String) (entry : Entry)
    : Type 0 where
  has_finished :
      (code : Option ℤ) (message : Message) (timestamp : ℕ)
      → entry.job.state ≡ inactive (finished code message) timestamp
      → Settled is_running jobs name entry
  was_stopped :
      (timestamp : ℕ)
      → entry.job.state ≡ inactive stopped timestamp
      → Settled is_running jobs name entry
  runs :
      (pid start_time : ℕ)
      → entry.job.state ≡ active pid start_time
      → is_running pid ≡ true
      → Settled is_running jobs name entry
  waits :
      (names : List String) (timestamp : ℕ)
      → entry.job.state ≡ inactive (pending names) timestamp
      → deps_finished name jobs entry.job.config ≡ not_yet
      → Settled is_running jobs name entry

first_keeps :
    (world : World) (has_job_runner : Bool) (is_running : ℕ → Bool) (jobs : JobsMap) (name : String)
    (entry : Entry)
    → Settled is_running jobs name entry
    → update_active_job world has_job_runner is_running name entry ≡ entry
unfolding update_active_job
first_keeps world has_job_runner is_running jobs name entry
      (has_finished code message timestamp s) =
    rw s refl
first_keeps world has_job_runner is_running jobs name entry (was_stopped timestamp s) = rw s refl
first_keeps world has_job_runner is_running jobs name entry (runs pid start_time s r) =
    rw (s, r) refl
first_keeps world has_job_runner is_running jobs name entry (waits names timestamp s d) = rw s refl

second_keeps :
    (world : World) (has_job_runner : Bool) (is_running : ℕ → Bool) (jobs : JobsMap) (name : String)
    (entry : Entry)
    → Settled is_running jobs name entry
    → check_inactive_job world has_job_runner jobs name entry ≡ entry
unfolding check_inactive_job
second_keeps world has_job_runner is_running jobs name entry
      (has_finished code message timestamp s) =
    rw s refl
second_keeps world has_job_runner is_running jobs name entry (was_stopped timestamp s) = rw s refl
second_keeps world has_job_runner is_running jobs name entry (runs pid start_time s r) = rw s refl
second_keeps world has_job_runner is_running jobs name entry (waits names timestamp s d) =
    rw (s, d) refl

-- A round leaves a job as it is, with its logs and its file, when it has finished, was stopped, or
-- has a process that runs, or when it is pending and, after the first loop of the round, its
-- dependencies have not all ended and none has failed.
pub update_jobs-keeps :
    (worlds worlds' : String → World) (has_job_runner : Bool) (is_running : ℕ → Bool)
    (jobs : JobsMap) (name : String) (entry : Entry)
    → lookup name jobs ≡ some entry
    → Settled is_running (update_active_jobs worlds has_job_runner is_running jobs) name entry
    → lookup name (update_jobs worlds worlds' has_job_runner is_running jobs).0 ≡ some entry
unfolding update_jobs check_inactive_jobs update_active_jobs
update_jobs-keeps worlds worlds' has_job_runner is_running jobs name entry found settled =
    let updated = update_active_jobs worlds has_job_runner is_running jobs in
    let first : String → Entry → Entry =
      λ name. update_active_job (worlds name) has_job_runner is_running name in
    let second : String → Entry → Entry =
      λ name. check_inactive_job (worlds' name) has_job_runner updated name in
    let once : lookup name updated ≡ some entry =
      lookup-map_found first name jobs entry found
      ∙ ap some (first_keeps (worlds name) has_job_runner is_running updated name entry settled) in
    lookup-map_found second name updated entry once
    ∙ ap some (second_keeps (worlds' name) has_job_runner is_running updated name entry settled)
