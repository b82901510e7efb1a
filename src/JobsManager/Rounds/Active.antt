-- ===== src/JobsManager/Rounds/Active.antt =====
-- The jobs that are active after a round of the manager of babel/src/jobs_manager.rs.
use blockvisor.Common.{
  ℕ, ◌≡◌, refl, sym, subst, ◌∙◌, ◌⊎◌, inl, inr, Bool, true, none, some, List, arith, All,
  Bool-cases,
}
use Prim.Native.String.{String}
use blockvisor.Common.Assoc.{lookup}
use blockvisor.Jobs.{
  pending, finished, stopped, running, JobState, active, inactive, or_none, push_log, save_status,
  load_status, Disk,
}
use blockvisor.JobsManager.{Entry, JobsMap, World, Deps, not_yet, satisfied, failed, deps_finished}
use blockvisor.JobsManager.Needs.{Succeeded, Ended, deps_finished-satisfied}
use blockvisor.JobsManager.Rounds.{
  fail_deps, check_pending, check_state, check_inactive_job, check_inactive_jobs, check_runner,
  update_active_job, update_active_jobs, update_jobs,
}
use blockvisor.JobsManager.Rounds.Names.{lookup-map_entries}
use blockvisor.JobsManager.Rounds.Starts.{
  Starts, may_restart, or_log-state, push_log-state, start_job-Starts, handle_stopped_job-Starts,
}

abbrev pub MayRestart : Disk → Entry → Type 0
MayRestart disk entry = may_restart entry.job.config.restart (load_status disk entry.file) ≡ true

-- What lets the check of an inactive job leave it active.
pub data Ready (disk : Disk) (jobs : JobsMap) (entry : Entry) : Type 0 where
  dependencies_met :
      (names : List String) (timestamp : ℕ)
      → entry.job.state ≡ inactive (pending names) timestamp
      → All (Succeeded jobs) (or_none entry.job.config.needs)
      → All (Ended jobs) (or_none entry.job.config.wait_for)
      → Ready disk jobs entry
  interrupted :
      (timestamp : ℕ)
      → entry.job.state ≡ inactive running timestamp
      → MayRestart disk entry
      → Ready disk jobs entry

Checked : World → Bool → JobsMap → String → Entry → JobState → ℕ → ℕ → Type 0
Checked world has_job_runner jobs name entry state pid start_time =
    (state ≡ active pid start_time)
    ⊎ (Ready world.disk jobs entry × Starts world has_job_runner name pid start_time)

pending-Checked :
    (world : World) (has_job_runner : Bool) (jobs : JobsMap) (name : String) (entry : Entry)
    (names : List String) (timestamp pid start_time : ℕ) (deps : Deps)
    → deps_finished name jobs entry.job.config ≡ deps
    → entry.job.state ≡ inactive (pending names) timestamp
    → (check_pending world has_job_runner name timestamp entry deps).job.state
      ≡ active pid start_time
    → Ready world.disk jobs entry × Starts world has_job_runner name pid start_time
unfolding fail_deps
pending-Checked world has_job_runner jobs name entry names timestamp pid start_time not_yet d s h =
    absurd (ground arith)
pending-Checked world has_job_runner jobs name entry names timestamp pid start_time satisfied d s
      h =
    let (needs, waits) = (deps_finished-satisfied name jobs entry.job.config).0 d in
    (
      dependencies_met names timestamp s needs waits,
      start_job-Starts world has_job_runner name entry pid start_time h,
    )
pending-Checked world has_job_runner jobs name entry names timestamp pid start_time (failed message)
      d s h =
    let job = record entry.job { state = inactive (finished none message) timestamp } in
    let written = save_status world.disk world.now job.state entry.file in
    let e = or_log-state world name (push_log world.now message job) entry.file written in
    let e' = push_log-state world.now message job in absurd (ground arith)

state-Checked :
    (world : World) (has_job_runner : Bool) (jobs : JobsMap) (name : String) (entry : Entry)
    (state : JobState) (pid start_time : ℕ)
    → entry.job.state ≡ state
    → (check_state world has_job_runner jobs name entry state).job.state ≡ active pid start_time
    → (state ≡ active pid start_time)
      ⊎ (Ready world.disk jobs entry × Starts world has_job_runner name pid start_time)
state-Checked world has_job_runner jobs name entry (active p t) pid start_time s h = inl (sym s ∙ h)
state-Checked world has_job_runner jobs name entry (inactive (pending names) timestamp) pid
      start_time s h =
    inr (
      pending-Checked world has_job_runner jobs name entry names timestamp pid start_time
        (deps_finished name jobs entry.job.config) refl s h)
state-Checked world has_job_runner jobs name entry (inactive running timestamp) pid start_time s h =
    let (may, starts) =
      handle_stopped_job-Starts world has_job_runner name entry pid start_time h in
    inr (interrupted timestamp s may, starts)
state-Checked world has_job_runner jobs name entry (inactive (finished code message) timestamp) pid
      start_time s h =
    inl (sym s ∙ h)
state-Checked world has_job_runner jobs name entry (inactive stopped timestamp) pid start_time s h =
    inl (sym s ∙ h)

runner-Checked :
    (world : World) (has_job_runner : Bool) (is_running : ℕ → Bool) (name : String) (entry : Entry)
    (state : JobState) (pid start_time : ℕ)
    → entry.job.state ≡ state
    → (check_runner world has_job_runner is_running name entry state).job.state
      ≡ active pid start_time
    → ((state ≡ active pid start_time) × (is_running pid ≡ true))
      ⊎ (MayRestart world.disk entry × Starts world has_job_runner name pid start_time)
runner-Checked world has_job_runner is_running name entry (active p t) pid start_time s h =
    elim (Bool-cases (is_running p)) [
      | inl e ↦ inl (ground arith)
      | inr e ↦
          inr (
            handle_stopped_job-Starts world has_job_runner name entry pid start_time (ground arith))
    ]
runner-Checked world has_job_runner is_running name entry (inactive status timestamp) pid start_time
      s h =
    absurd (ground arith)

-- Why a job is active after a round: its process is one that runs, or it was started in the round.
pub data Reason (worlds worlds' : String → World) (has_job_runner : Bool) (is_running : ℕ → Bool)
    (jobs : JobsMap) (name : String) (entry : Entry) (pid start_time : ℕ) : Type 0 where
  still_running :
      entry.job.state ≡ active pid start_time
      → is_running pid ≡ true
      → Reason worlds worlds' has_job_runner is_running jobs name entry pid start_time
  restarted :
      MayRestart (worlds name).disk entry
      → Starts (worlds name) has_job_runner name pid start_time
      → Reason worlds worlds' has_job_runner is_running jobs name entry pid start_time
  started :
      Ready
        (worlds' name).disk
        (update_active_jobs worlds has_job_runner is_running jobs)
        (update_active_job (worlds name) has_job_runner is_running name entry)
      → Starts (worlds' name) has_job_runner name pid start_time
      → Reason worlds worlds' has_job_runner is_running jobs name entry pid start_time

-- A job that is active after a round of the manager was there before it, and has a reason to be
-- active: it was active with a process that runs; or its runner had ended, without a final status,
-- and it was started again now; or, as the first loop of the round left the jobs, it was pending with
-- all of its dependencies met, or interrupted and to be started again, and was started now.
pub update_jobs-active :
    (worlds worlds' : String → World) (has_job_runner : Bool) (is_running : ℕ → Bool)
    (jobs : JobsMap) (name : String) (entry' : Entry) (pid start_time : ℕ)
    → lookup name (update_jobs worlds worlds' has_job_runner is_running jobs).0 ≡ some entry'
    → entry'.job.state ≡ active pid start_time
    → (entry : Entry) × (lookup name jobs ≡ some entry)
      × Reason worlds worlds' has_job_runner is_running jobs name entry pid start_time
unfolding update_jobs check_inactive_jobs check_inactive_job update_active_jobs update_active_job
update_jobs-active worlds worlds' has_job_runner is_running jobs name entry' pid start_time found
      act =
    let first : String → Entry → Entry =
      λ name. update_active_job (worlds name) has_job_runner is_running name in
    let updated = update_active_jobs worlds has_job_runner is_running jobs in
    let (mid, found', same') =
      lookup-map_entries (λ name. check_inactive_job (worlds' name) has_job_runner updated name)
        name updated entry' found in
    let (entry, is_there, same) = lookup-map_entries first name jobs mid found' in
    let mid_active : (check_state (worlds' name) has_job_runner updated name mid
          mid.job.state).job.state
        ≡ active pid start_time =
      subst (λ e. e.job.state ≡ active pid start_time) same' act in
    (
      entry,
      is_there,
      elim (state-Checked (worlds' name) has_job_runner updated name mid mid.job.state pid
          start_time refl mid_active) [
            | inl kept ↦
                elim (runner-Checked (worlds name) has_job_runner is_running name entry
                  entry.job.state pid start_time refl
                  (subst (λ e. e.job.state ≡ active pid start_time) same kept)) [
                    | inl (was, runs) ↦ still_running was runs
                    | inr (may, starts) ↦ restarted may starts
                  ]
            | inr (ready, starts) ↦
                started (subst (Ready (worlds' name).disk updated) same ready) starts
          ],
    )
