-- ===== src/JobsManager/Requests.antt =====
-- The `Client` of babel/src/jobs_manager.rs: what can be asked of the jobs. A call returns the jobs
-- as it leaves them, also where it fails. Whether a process can be terminated within a time is a
-- parameter.
use Prim.Native.String.{String}
use blockvisor.Common.Assoc.{lookup, insert}
use blockvisor.Common.Int.{pos}
use blockvisor.Jobs.{
  Message, plain_text, JobStatus, pending, running, finished, stopped, RestartPolicy, never, always,
  on_failure, JobConfig, waiting_for, JobState, active, inactive, Job, new, set_inactive, update,
  StatusFile, absent, save_status,
}
use blockvisor.JobsManager.{Entry, JobsMap, max_jobs, World}
use blockvisor.JobsManager.Rounds.{map_entries}
use blockvisor.Common.{
  ℕ, ◌+◌, Bool, true, false, ◌||◌, Option, none, some, List, [], ◌∷◌, map, reverse, leb,
  if◌then◌else◌, length,
}
pub mod Bounded
pub mod Stopped

pub data RequestError : Type 0 where
  cannot_terminate : String → RequestError
  too_many_jobs : RequestError
  io_failed : RequestError
  job_not_found : String → RequestError
  missing_node_env : String → RequestError
  cannot_cleanup_active : String → RequestError

abbrev pub Reply : Type 0
Reply = JobsMap × Option RequestError

abbrev pub default_job_shutdown_timeout_secs : ℕ
default_job_shutdown_timeout_secs = 60

abbrev pub shutdown_timeout_secs : JobConfig → ℕ
shutdown_timeout_secs config = elim config.shutdown_timeout_secs [
  | none ↦ default_job_shutdown_timeout_secs
  | some secs ↦ secs
]

abbrev pub active_timeout : Job → ℕ
active_timeout job = elim job.state [
  | active pid start_time ↦ shutdown_timeout_secs job.config
  | inactive status timestamp ↦ 0
]

unfoldable pub get_active_jobs_shutdown_timeout : JobsMap → ℕ
get_active_jobs_shutdown_timeout [] = 0
get_active_jobs_shutdown_timeout ((name, entry) ∷ jobs) =
    active_timeout entry.job + get_active_jobs_shutdown_timeout jobs

unfoldable pub get_job_shutdown_timeout : String → JobsMap → ℕ
get_job_shutdown_timeout name jobs = elim (lookup name jobs) [
  | none ↦ 0
  | some entry ↦ active_timeout entry.job
]

-- A status is set and saved; it is set also where it cannot be saved.
abbrev pub set_status : World → JobStatus → Entry → Entry × Bool
set_status world status entry =
    let job = set_inactive world.now status entry.job in
    elim (save_status world.disk world.now job.state entry.file) [
      | none ↦ (record { job = job; file = entry.file }, false)
      | some file ↦ (record { job = job; file = file }, true)
    ]

-- `jobs.get_mut(name)`, where a missing job is an error.
abbrev pub on_found :
    String → JobsMap → (Entry → Entry × Option RequestError) → Option Entry → Reply
on_found name jobs change none = (jobs, some (job_not_found name))
on_found name jobs change (some entry) = (insert name (change entry).0 jobs, (change entry).1)

abbrev pub on_job : String → JobsMap → (Entry → Entry × Option RequestError) → Reply
on_job name jobs change = on_found name jobs change (lookup name jobs)

-- A loop over the jobs: the first error ends it.
abbrev pub then_rest : String → JobsMap → Entry × Option RequestError → Reply → Reply
then_rest name jobs (entry, none) rest = ((name, entry) ∷ rest.0, rest.1)
then_rest name jobs (entry, some error) rest = ((name, entry) ∷ jobs, some error)

module _ (terminates : ℕ → ℕ → Bool) where
  -- `terminate_job_process`, where the job has a process.
  abbrev pub terminated : Job → Bool
  terminated job = elim job.state [
    | active pid start_time ↦ terminates pid (shutdown_timeout_secs job.config)
    | inactive status timestamp ↦ true
  ]

  -- `stop_job`, and what `skip` does with another status.
  unfoldable pub end_job : World → JobStatus → String → Entry → Entry × Option RequestError
  end_job world status name entry =
      if terminated entry.job
      then (let (entry', done) = set_status world status entry in
          (entry', if done then none else some io_failed))
      else (entry, some (cannot_terminate name))

  unfoldable pub stop : World → String → JobsMap → Reply
  unfolding end_job
  stop world name jobs = on_job name jobs (end_job world stopped name)

  unfoldable pub skip : World → String → JobsMap → Reply
  unfolding end_job
  skip world name jobs =
      on_job name jobs (end_job world (finished (some (pos 0)) (plain_text "Skipped")) name)

  -- The first job that cannot be stopped ends the loop.
  unfoldable pub stop_all : (String → World) → JobsMap → Reply
  unfolding end_job
  stop_all worlds [] = ([], none)
  stop_all worlds ((name, entry) ∷ jobs) =
      let rest = stop_all worlds jobs in
      then_rest name jobs (end_job (worlds name) stopped name entry) rest

  -- A shutdown that is forced kills the processes, and does not fail.
  abbrev pub shut_down_state : Bool → ℕ → String → Entry → JobState → Entry × Option RequestError
  shut_down_state force now name entry (inactive status timestamp) = (entry, none)
  shut_down_state force now name entry (active pid start_time) =
      if force || terminates pid (shutdown_timeout_secs entry.job.config)
      then (record entry { job = set_inactive now running entry.job }, none)
      else (entry, some (cannot_terminate name))

  abbrev pub shut_down : Bool → ℕ → String → Entry → Entry × Option RequestError
  shut_down force now name entry = shut_down_state force now name entry entry.job.state

  unfoldable pub shutdown : Bool → (String → World) → JobsMap → Reply
  shutdown force worlds [] = ([], none)
  shutdown force worlds ((name, entry) ∷ jobs) =
      let rest = shutdown force worlds jobs in
      then_rest name jobs (shut_down force (worlds name).now name entry) rest

  -- The new job, after its directory is there: its status and its configuration are saved.
  abbrev pub insert_new : Bool → String → Job → JobsMap → Option StatusFile → Reply
  insert_new can_save_config name job jobs none = (jobs, some io_failed)
  insert_new can_save_config name job jobs (some file) =
      if can_save_config
      then (insert name (record { job = job; file = file }) jobs, none)
      else (jobs, some io_failed)

  abbrev pub save_new : World → Bool → Bool → String → JobConfig → StatusFile → JobsMap → Reply
  save_new world can_create_dir can_save_config name config file jobs =
      let job = new config (inactive stopped world.now) in
      if can_create_dir
      then insert_new can_save_config name job jobs
          (save_status world.disk world.now job.state file)
      else (jobs, some io_failed)

  abbrev pub create_over : World → Bool → Bool → String → JobConfig → JobsMap → Option Entry → Reply
  create_over world can_create_dir can_save_config name config jobs (some entry) =
      if terminated entry.job
      then save_new world can_create_dir can_save_config name config entry.file jobs
      else (jobs, some (cannot_terminate name))
  create_over world can_create_dir can_save_config name config jobs none =
      if leb max_jobs (length jobs)
      then (jobs, some too_many_jobs)
      else save_new world can_create_dir can_save_config name config absent jobs

  -- `create`; a job that is there is stopped, and takes the new configuration.
  unfoldable pub create : World → Bool → Bool → String → JobConfig → JobsMap → Reply
  create world can_create_dir can_save_config name config jobs =
      create_over world can_create_dir can_save_config name config jobs (lookup name jobs)

abbrev pub start_state : World → Entry → JobState → Entry × Option RequestError
start_state world entry (active pid start_time) = (entry, none)
start_state world entry (inactive status timestamp) =
    let (entry', done) = set_status world (pending (waiting_for entry.job.config)) entry in
    (entry', if done then none else some io_failed)

-- `start`: the manager is told, and starts the job in its next round.
unfoldable pub start : World → String → JobsMap → Reply
start world name jobs = on_job name jobs (λ entry. start_state world entry entry.job.state)

-- The checks of `cleanup`; what it removes are the files of the transfer.
unfoldable pub cleanup : Bool → (Job → Bool) → String → JobsMap → Option RequestError
cleanup has_node_env cleans name jobs = elim (lookup name jobs) [
  | none ↦ some (job_not_found name)
  | some entry ↦
      if has_node_env
      then (elim entry.job.state [
        | active pid start_time ↦ some (cannot_cleanup_active name)
        | inactive status timestamp ↦ if cleans entry.job then none else some io_failed
      ])
      else some (missing_node_env name)
]

pub record JobInfo : Type 0 where
  pub status : JobStatus
  pub timestamp : ℕ
  pub restart_count : ℕ
  pub logs : List Message
  pub upgrade_blocking : Bool

abbrev pub blocks_upgrade : RestartPolicy → Bool
blocks_upgrade never = true
blocks_upgrade (always config) = false
blocks_upgrade (on_failure config) = elim config.max_retries [ none ↦ false | some n ↦ true ]

abbrev pub info_status : JobState → JobStatus × ℕ
info_status (active pid start_time) = (running, start_time)
info_status (inactive status timestamp) = (status, timestamp)

-- `build_job_info`, without the progress, which is read from a file.
unfoldable pub build_job_info : Job → JobInfo
build_job_info job = record {
  status = (info_status job.state).0;
  timestamp = (info_status job.state).1;
  restart_count = length job.restart_stamps;
  logs = reverse (map (λ ((_, message) : ℕ × Message). message) job.logs);
  upgrade_blocking = blocks_upgrade job.config.restart;
}

unfoldable pub list : ℕ → JobsMap → JobsMap × List (String × JobInfo)
unfolding build_job_info
list now jobs =
    let updated = map_entries (λ _ entry. record entry { job = update now entry.job }) jobs in
    (updated, map (λ ((name, entry) : String × Entry). (name, build_job_info entry.job)) updated)

abbrev pub info_found : ℕ → String → JobsMap → Option Entry → JobsMap × Option JobInfo
info_found now name jobs none = (jobs, none)
info_found now name jobs (some entry) =
    let job = update now entry.job in
    (insert name (record entry { job = job }) jobs, some (build_job_info job))

unfoldable pub info : ℕ → String → JobsMap → JobsMap × Option JobInfo
unfolding build_job_info
info now name jobs = info_found now name jobs (lookup name jobs)
