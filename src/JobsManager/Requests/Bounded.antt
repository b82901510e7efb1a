-- ===== src/JobsManager/Requests/Bounded.antt =====
-- The number of the jobs of babel/src/jobs_manager.rs: whatever is asked, in any order, and whatever
-- the manager does in between.
use blockvisor.Common.{
  ℕ, suc, ◌≤◌, ◌<◌, ◌≡◌, refl, ◌∙◌, inl, inr, Bool, true, false, Option, none, some, [], ◌∷◌, arith,
  leb, length, Bool-cases, Option-cases,
}
use Prim.Native.String.{String}
use blockvisor.Common.Assoc.{lookup, insert, length-insert}
use blockvisor.Jobs.{JobConfig, push_log, register_restart, StatusFile, Job, absent}
use blockvisor.JobsManager.{Entry, JobsMap, World, max_jobs}
use blockvisor.JobsManager.Rounds.{
  map_entries, update_jobs, update_active_jobs, check_inactive_jobs, JobReport, report_log,
  report_restart, change_job, handle_job_report,
}
use blockvisor.JobsManager.Rounds.Names.{length-map_entries}
use blockvisor.JobsManager.Requests.{
  RequestError, Reply, then_rest, on_job, stop, skip, stop_all, shutdown, terminated, insert_new,
  save_new, create_over, create, start, list, info,
}

length-replace :
    (name : String) (entry entry' : Entry) (jobs : JobsMap)
    → lookup name jobs ≡ some entry
    → length (insert name entry' jobs) ≡ length jobs
length-replace name entry entry' jobs h = rw (length-insert name entry' jobs, h) refl

length-insert-le :
    (name : String) (entry : Entry) (jobs : JobsMap)
    → length jobs < max_jobs
    → length (insert name entry jobs) ≤ max_jobs
length-insert-le name entry jobs h = ground (arith, length-insert name entry jobs)

length-update_jobs :
    (worlds worlds' : String → World) (has_job_runner : Bool) (is_running : ℕ → Bool)
    (jobs : JobsMap)
    → length (update_jobs worlds worlds' has_job_runner is_running jobs).0 ≡ length jobs
unfolding update_jobs update_active_jobs check_inactive_jobs
length-update_jobs worlds worlds' has_job_runner is_running jobs =
    length-map_entries _ (map_entries _ jobs) ∙ length-map_entries _ jobs

length-change_job :
    (name : String) (change : Job → Job) (jobs : JobsMap)
    → length (change_job name change (lookup name jobs) jobs) ≡ length jobs
length-change_job name change jobs = elim (Option-cases (lookup name jobs)) [
  | inl e ↦ rw e refl
  | inr (entry, e) ↦ rw e (length-replace name entry _ jobs e)
]

length-handle_job_report :
    (now : ℕ) (report : Option JobReport) (jobs : JobsMap)
    → length (handle_job_report now report jobs) ≡ length jobs
unfolding handle_job_report
length-handle_job_report now none jobs = refl
length-handle_job_report now (some (report_log name message)) jobs =
    length-change_job name (push_log now message) jobs
length-handle_job_report now (some (report_restart name)) jobs =
    length-change_job name (register_restart now) jobs

length-on_job :
    (name : String) (jobs : JobsMap) (change : Entry → Entry × Option RequestError)
    → length (on_job name jobs change).0 ≡ length jobs
length-on_job name jobs change = elim (Option-cases (lookup name jobs)) [
  | inl e ↦ rw e refl
  | inr (entry, e) ↦ rw e (length-replace name entry _ jobs e)
]

length-info :
    (now : ℕ) (name : String) (jobs : JobsMap) → length (info now name jobs).0 ≡ length jobs
unfolding info
length-info now name jobs = elim (Option-cases (lookup name jobs)) [
  | inl e ↦ rw e refl
  | inr (entry, e) ↦ rw e (length-replace name entry _ jobs e)
]

length-then_rest :
    (name : String) (jobs : JobsMap) (result : Entry × Option RequestError) (rest : Reply)
    → length rest.0 ≡ length jobs
    → length (then_rest name jobs result rest).0 ≡ suc (length jobs)
length-then_rest name jobs (entry, none) rest h = omega arith
length-then_rest name jobs (entry, some error) rest h = omega arith

module _ (terminates : ℕ → ℕ → Bool) where
  length-stop_all :
      (worlds : String → World) (jobs : JobsMap)
      → length (stop_all terminates worlds jobs).0 ≡ length jobs
  unfolding stop_all
  length-stop_all worlds [] = refl
  length-stop_all worlds ((name, entry) ∷ jobs) =
      length-then_rest name jobs _ _ (length-stop_all worlds jobs)

  length-shutdown :
      (force : Bool) (worlds : String → World) (jobs : JobsMap)
      → length (shutdown terminates force worlds jobs).0 ≡ length jobs
  unfolding shutdown
  length-shutdown force worlds [] = refl
  length-shutdown force worlds ((name, entry) ∷ jobs) =
      length-then_rest name jobs _ _ (length-shutdown force worlds jobs)

  length-insert_new :
      (can_save_config : Bool) (name : String) (job : Job) (jobs : JobsMap)
      (saved : Option StatusFile)
      → ((entry : Entry) → length (insert name entry jobs) ≤ max_jobs)
      → length jobs ≤ max_jobs
      → length (insert_new terminates can_save_config name job jobs saved).0 ≤ max_jobs
  length-insert_new can_save_config name job jobs none fits h = h
  length-insert_new false name job jobs (some file) fits h = h
  length-insert_new true name job jobs (some file) fits h = fits _

  length-save_new :
      (world : World) (can_create_dir can_save_config : Bool) (name : String) (config : JobConfig)
      (file : StatusFile) (jobs : JobsMap)
      → ((entry : Entry) → length (insert name entry jobs) ≤ max_jobs)
      → length jobs ≤ max_jobs
      → length (save_new terminates world can_create_dir can_save_config name config file jobs).0
        ≤ max_jobs
  length-save_new world false can_save_config name config file jobs fits h = h
  length-save_new world true can_save_config name config file jobs fits h =
      length-insert_new can_save_config name _ jobs _ fits h

  length-create_over :
      (world : World) (can_create_dir can_save_config : Bool) (name : String) (config : JobConfig)
      (jobs : JobsMap) (found : Option Entry)
      → lookup name jobs ≡ found
      → length jobs ≤ max_jobs
      → length
          (create_over terminates world can_create_dir can_save_config name config jobs found).0
        ≤ max_jobs
  length-create_over world can_create_dir can_save_config name config jobs (some entry) found h =
      elim (Bool-cases (terminated terminates entry.job)) [
        | inl e ↦ rw e (
            length-save_new world can_create_dir can_save_config name config entry.file jobs
              (λ entry'. let same = length-replace name entry entry' jobs found in omega arith) h)
        | inr e ↦ rw e h
      ]
  length-create_over world can_create_dir can_save_config name config jobs none found h =
      elim (Bool-cases (leb max_jobs (length jobs))) [
        | inl e ↦ rw e h
        | inr e ↦ rw e (
            length-save_new world can_create_dir can_save_config name config absent jobs
              (λ entry. length-insert-le name entry jobs (ground arith)) h)
      ]

  -- One request to the client, one round of the manager, or one report of a runner.
  pub data Step (jobs : JobsMap) : JobsMap → Type 0 where
    create_job :
        (world : World) (can_create_dir can_save_config : Bool) (name : String) (config : JobConfig)
        → Step jobs (create terminates world can_create_dir can_save_config name config jobs).0
    start_jobs : (world : World) (name : String) → Step jobs (start world name jobs).0
    stop_job : (world : World) (name : String) → Step jobs (stop terminates world name jobs).0
    skip_job : (world : World) (name : String) → Step jobs (skip terminates world name jobs).0
    stop_all_jobs : (worlds : String → World) → Step jobs (stop_all terminates worlds jobs).0
    shutdown_jobs :
        (force : Bool) (worlds : String → World)
        → Step jobs (shutdown terminates force worlds jobs).0
    list_jobs : (now : ℕ) → Step jobs (list now jobs).0
    job_info : (now : ℕ) (name : String) → Step jobs (info now name jobs).0
    round :
        (worlds worlds' : String → World) (has_job_runner : Bool) (is_running : ℕ → Bool)
        → Step jobs (update_jobs worlds worlds' has_job_runner is_running jobs).0
    report :
        (now : ℕ) (job_report : Option JobReport)
        → Step jobs (handle_job_report now job_report jobs)

  -- What a manager can come to, from a directory without jobs.
  pub data Reachable : JobsMap → Type 0 where
    no_jobs : Reachable []
    then_step : {jobs jobs' : JobsMap} → Reachable jobs → Step jobs jobs' → Reachable jobs'

  step-bounded :
      {jobs jobs' : JobsMap} → Step jobs jobs' → length jobs ≤ max_jobs → length jobs' ≤ max_jobs
  unfolding create start stop skip list
  step-bounded {jobs} (create_job world can_create_dir can_save_config name config) h =
      length-create_over world can_create_dir can_save_config name config jobs (lookup name jobs)
        refl h
  step-bounded {jobs} (start_jobs world name) h = rw (length-on_job name jobs _) h
  step-bounded {jobs} (stop_job world name) h = rw (length-on_job name jobs _) h
  step-bounded {jobs} (skip_job world name) h = rw (length-on_job name jobs _) h
  step-bounded {jobs} (stop_all_jobs worlds) h = rw (length-stop_all worlds jobs) h
  step-bounded {jobs} (shutdown_jobs force worlds) h = rw (length-shutdown force worlds jobs) h
  step-bounded {jobs} (list_jobs now) h = rw (length-map_entries _ jobs) h
  step-bounded {jobs} (job_info now name) h = rw (length-info now name jobs) h
  step-bounded {jobs} (round worlds worlds' has_job_runner is_running) h =
      rw (length-update_jobs worlds worlds' has_job_runner is_running jobs) h
  step-bounded {jobs} (report now job_report) h =
      rw (length-handle_job_report now job_report jobs) h

  -- From a directory without jobs, no sequence of requests, rounds and reports comes to more than 16
  -- jobs.
  pub Reachable-bounded : {jobs : JobsMap} → Reachable jobs → length jobs ≤ 16
  Reachable-bounded no_jobs = omega arith
  Reachable-bounded (then_step before step) = step-bounded step (Reachable-bounded before)
