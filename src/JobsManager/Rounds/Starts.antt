-- ===== src/JobsManager/Rounds/Starts.antt =====
-- Which jobs a round of babel/src/jobs_manager.rs starts.
use blockvisor.Common.{ℕ, ◌≡◌, refl, Bool, true, false, Option, none, some, arith}
use Prim.Native.String.{String}
use blockvisor.Jobs.{
  Message, JobStatus, cannot_load_status, RestartPolicy, never, always, on_failure, pending,
  finished, stopped, running, Job, active, inactive, push_log, save_status, load_status,
  clear_status, StatusFile,
}
use blockvisor.JobsManager.{
  Entry, World, or_log, not_launched, launched, launch, start_job, assumed_status, settle, restart,
  handle_stopped_job, cleared, ended,
}

-- The process was started for the job now, by the runner that is there.
abbrev pub Starts : World → Bool → String → ℕ → ℕ → Type 0
Starts world has_job_runner name pid start_time =
    (has_job_runner ≡ true) × (world.spawn name ≡ some pid) × (start_time ≡ world.now)

pub push_log-state :
    (now : ℕ) (message : Message) (job : Job) → (push_log now message job).state ≡ job.state
unfolding push_log
push_log-state now message job = refl

pub or_log-state :
    (world : World) (name : String) (job : Job) (file : StatusFile) (written : Option StatusFile)
    → (or_log world name job file written).job.state ≡ job.state
or_log-state world name job file none = push_log-state world.now _ job
or_log-state world name job file (some file') = refl

not_launched-state :
    (world : World) (name : String) (job : Job) (file : StatusFile)
    → (message : Message) × ((not_launched world name job file).job.state
        ≡ inactive (finished none message) world.now)
not_launched-state world name job file =
    (_, or_log-state world name _ file (save_status world.disk world.now _ file))

launched-active :
    (world : World) (name : String) (job : Job) (file : StatusFile) (o : Option ℕ)
    (pid start_time : ℕ)
    → (launched world name job file o).job.state ≡ active pid start_time
    → (o ≡ some pid) × (start_time ≡ world.now)
launched-active world name job file none pid start_time h =
    let (message, e) = not_launched-state world name job file in absurd (ground arith)
launched-active world name job file (some p) pid start_time h = ground arith

launch-Starts :
    (world : World) (has_job_runner : Bool) (name : String) (job : Job) (file : StatusFile)
    (pid start_time : ℕ)
    → (launch world has_job_runner name job file).job.state ≡ active pid start_time
    → Starts world has_job_runner name pid start_time
unfolding launch
launch-Starts world false name job file pid start_time h =
    let (e, _) = launched-active world name job file none pid start_time h in absurd (ground arith)
launch-Starts world true name job file pid start_time h =
    let (e, e') = launched-active world name job file (world.spawn name) pid start_time h in
    (refl, e, e')

cleared-Starts :
    (world : World) (has_job_runner : Bool) (name : String) (entry : Entry) (o : Option StatusFile)
    (pid start_time : ℕ)
    → (cleared world has_job_runner name entry o).job.state ≡ active pid start_time
    → Starts world has_job_runner name pid start_time
cleared-Starts world has_job_runner name entry none pid start_time h = absurd (ground arith)
cleared-Starts world has_job_runner name entry (some file) pid start_time h =
    launch-Starts world has_job_runner name entry.job file pid start_time h

pub start_job-Starts :
    (world : World) (has_job_runner : Bool) (name : String) (entry : Entry) (pid start_time : ℕ)
    → (start_job world has_job_runner name entry).job.state ≡ active pid start_time
    → Starts world has_job_runner name pid start_time
unfolding start_job
start_job-Starts world has_job_runner name entry pid start_time h =
    cleared-Starts world has_job_runner name entry (clear_status world.disk entry.file) pid
      start_time h

-- Whether a job whose runner ended is started again, by its restart policy and the status that the
-- runner left.
abbrev pub may_restart : RestartPolicy → Option (JobStatus × ℕ) → Bool
may_restart policy (some (finished code message, timestamp)) = false
may_restart policy (some (stopped, timestamp)) = false
may_restart policy (some (pending names, timestamp)) = true
may_restart policy (some (running, timestamp)) = true
may_restart never none = false
may_restart (always config) none = true
may_restart (on_failure config) none = true

restart-Starts :
    (world : World) (has_job_runner : Bool) (name : String) (entry : Entry) (pid start_time : ℕ)
    → (restart world has_job_runner name entry).job.state ≡ active pid start_time
    → Starts world has_job_runner name pid start_time
unfolding restart
restart-Starts world has_job_runner name entry pid start_time h =
    start_job-Starts world has_job_runner name _ pid start_time h

settle-Starts :
    (world : World) (has_job_runner : Bool) (name : String) (entry : Entry) (status : JobStatus)
    (timestamp pid start_time : ℕ)
    → (settle world has_job_runner name entry status timestamp).job.state ≡ active pid start_time
    → ((policy : RestartPolicy) → may_restart policy (some (status, timestamp)) ≡ true)
      × Starts world has_job_runner name pid start_time
settle-Starts world has_job_runner name entry (finished code message) timestamp pid start_time h =
    absurd (ground arith)
settle-Starts world has_job_runner name entry stopped timestamp pid start_time h =
    absurd (ground arith)
settle-Starts world has_job_runner name entry (pending names) timestamp pid start_time h =
    (λ policy. refl, restart-Starts world has_job_runner name entry pid start_time h)
settle-Starts world has_job_runner name entry running timestamp pid start_time h =
    (λ policy. refl, restart-Starts world has_job_runner name entry pid start_time h)

assumed-may_restart :
    (policy policy' : RestartPolicy) (message : Message) (timestamp : ℕ)
    → may_restart policy' (some (assumed_status policy message, timestamp)) ≡ true
    → may_restart policy none ≡ true
assumed-may_restart never policy' message timestamp h = h
assumed-may_restart (always config) policy' message timestamp h = refl
assumed-may_restart (on_failure config) policy' message timestamp h = refl

ended-Starts :
    (world : World) (has_job_runner : Bool) (name : String) (entry : Entry)
    (o : Option (JobStatus × ℕ)) (pid start_time : ℕ)
    → (ended world has_job_runner name entry o).job.state ≡ active pid start_time
    → (may_restart entry.job.config.restart o ≡ true)
      × Starts world has_job_runner name pid start_time
ended-Starts world has_job_runner name entry (some (status, timestamp)) pid start_time h =
    let (may, starts) =
      settle-Starts world has_job_runner name entry status timestamp pid start_time h in
    (may entry.job.config.restart, starts)
ended-Starts world has_job_runner name entry none pid start_time h =
    let policy = entry.job.config.restart in
    let message = cannot_load_status name world.error in
    let (may, starts) =
      settle-Starts world has_job_runner name
        (record entry { job = push_log world.now message entry.job })
        (assumed_status policy message) world.now pid start_time h in
    (assumed-may_restart policy policy message world.now (may policy), starts)

-- A job whose runner ended becomes active only if it may be started again: its runner left neither an
-- end nor a stop as the status, and where no status can be read its restart policy is not `Never`.
-- Its process is then the one started now.
pub handle_stopped_job-Starts :
    (world : World) (has_job_runner : Bool) (name : String) (entry : Entry) (pid start_time : ℕ)
    → (handle_stopped_job world has_job_runner name entry).job.state ≡ active pid start_time
    → (may_restart entry.job.config.restart (load_status world.disk entry.file) ≡ true)
      × Starts world has_job_runner name pid start_time
unfolding handle_stopped_job
handle_stopped_job-Starts world has_job_runner name entry pid start_time h =
    ended-Starts world has_job_runner name entry (load_status world.disk entry.file) pid start_time
      h
