-- ===== src/Jobs.antt =====
-- babel/src/jobs.rs: a job, its state, its logs and its restart stamps, and the file that its status
-- is saved in. Times are in nanoseconds. A message is what `format!` is given; how it reads is not
-- modelled, and the text of an error of the system is a parameter of it.
use Prim.Native.String.{String}
use blockvisor.Archive.{Compression}
use blockvisor.Common.Int.{ℤ}
use blockvisor.Common.{
  ℕ, ◌+◌, ◌-◌, ◌/◌, Bool, Option, none, some, List, [], ◌∷◌, ◌++◌, ltb, leb, ◌==◌, if◌then◌else◌,
  length, drop, any, retain,
}
pub mod Logs

pub data Message : Type 0 where
  plain_text : String → Message
  no_text : Message
  job_finished : String → Message
  job_failed : String → String → Message
  process_ended_unexpectedly : Message
  cannot_load_status : String → String → Message
  failed_to_clear_status : String → String → Message
  failed_to_start : String → String → Message
  failed_to_save_status : String → String → Message
  needs_undefined : String → String → Message
  needs_failed : String → String → Option ℤ → Message → Message
  needs_stopped : String → String → Message
  waits_for_undefined : String → String → Message

pub data JobStatus : Type 0 where
  pending : List String → JobStatus
  running : JobStatus
  finished : Option ℤ → Message → JobStatus
  stopped : JobStatus

pub record RestartConfig : Type 0 where
  pub backoff_timeout_ms : ℕ  -- u64
  pub backoff_base_ms : ℕ  -- u64
  pub max_retries : Option ℕ  -- u32

pub data RestartPolicy : Type 0 where
  never : RestartPolicy
  always : RestartConfig → RestartPolicy
  on_failure : RestartConfig → RestartPolicy

pub data JobType : Type 0 where
  run_sh : String → JobType
  download : Option ℕ → Option ℕ → JobType
  upload :
      Option (List String)
      → Option Compression
      → Option ℕ
      → Option ℕ
      → Option ℕ
      → Option ℕ
      → Option ℕ
      → JobType
  multi_client_upload : Option ℕ → Option ℕ → Option ℕ → Option ℕ → JobType
  multi_client_download : Option ℕ → Option ℕ → JobType

-- A signal is passed on by its name.
pub record JobConfig : Type 0 where
  pub job_type : JobType
  pub restart : RestartPolicy
  pub shutdown_timeout_secs : Option ℕ  -- u64
  pub shutdown_signal : Option String
  pub needs : Option (List String)
  pub wait_for : Option (List String)
  pub run_as : Option String
  pub log_buffer_capacity_mb : Option ℕ  -- usize
  pub log_timestamp : Option Bool
  pub use_protocol_data : Option Bool
  pub one_time : Option Bool

abbrev pub or_none : Option (List String) → List String
or_none none = []
or_none (some names) = names

unfoldable pub waiting_for : JobConfig → List String
waiting_for config = or_none config.needs ++ or_none config.wait_for

pub data JobState : Type 0 where
  active : ℕ → ℕ → JobState
  inactive : JobStatus → ℕ → JobState

pub record Job : Type 0 where
  pub config : JobConfig
  pub state : JobState
  pub logs : List (ℕ × Message)
  pub restart_stamps : List ℕ

abbrev pub max_job_logs : ℕ
max_job_logs = 1024

abbrev pub log_expire_days : ℕ
log_expire_days = 1

abbrev pub nanos_per_day : ℕ
nanos_per_day = 86_400_000_000_000

unfoldable pub new : JobConfig → JobState → Job
new config state = record { config = config; state = state; logs = []; restart_stamps = [] }

abbrev pub set_active : ℕ → ℕ → Job → Job
set_active now pid job = record job { state = active pid now }

abbrev pub set_inactive : ℕ → JobStatus → Job → Job
set_inactive now status job = record job { state = inactive status now }

-- `num_days()` of a stamp in the future is 0 or less, as the truncated difference is 0.
abbrev pub not_old : ℕ → ℕ → Bool
not_old now timestamp = ltb ((now - timestamp) / nanos_per_day) log_expire_days

abbrev pub trim_logs : List (ℕ × Message) → List (ℕ × Message)
trim_logs logs = if leb max_job_logs (length logs) then drop (max_job_logs - 1) logs else logs

-- The set is the list of its members.
abbrev pub add_stamp : ℕ → List ℕ → List ℕ
add_stamp time stamps = if any (λ t. t == time) stamps then stamps else time ∷ stamps

unfoldable pub update : ℕ → Job → Job
update now job = record job {
  restart_stamps = retain (not_old now) job.restart_stamps;
  logs = trim_logs (retain (λ ((timestamp, _) : ℕ × Message). not_old now timestamp) job.logs);
}

unfoldable pub register_restart : ℕ → Job → Job
unfolding update
register_restart now job =
    let updated = update now job in
    record updated { restart_stamps = add_stamp now updated.restart_stamps }

-- `truncate` acts on a copy of the message, which is dropped.
unfoldable pub push_log : ℕ → Message → Job → Job
unfolding update
push_log now message job =
    let updated = update now job in record updated { logs = updated.logs ++ (now, message) ∷ [] }

-- The status file of a job: its text and when it was modified. A file that is `unreadable` is there.
pub data StatusFile : Type 0 where
  absent : StatusFile
  unreadable : StatusFile
  saved : String → ℕ → StatusFile

-- Whether the file system lets a file be removed and written, and how the crate serde_json writes a
-- status and reads it: `none` is an error.
pub record Disk : Type 0 where
  pub can_remove : Bool
  pub can_write : Bool
  pub to_string : JobStatus → Option String
  pub from_str : String → Option JobStatus

-- `clear_status`, `save_status` and `load_status`: `none` is an error.
unfoldable pub clear_status : Disk → StatusFile → Option StatusFile
clear_status disk absent = some absent
clear_status disk file = if disk.can_remove then some absent else none

abbrev pub write_status : Disk → ℕ → Option String → Option StatusFile
write_status disk now none = none
write_status disk now (some text) = if disk.can_write then some (saved text now) else none

unfoldable pub save_status : Disk → ℕ → JobState → StatusFile → Option StatusFile
unfolding clear_status
save_status disk now (active pid start_time) file = some file
save_status disk now (inactive running timestamp) file = clear_status disk file
save_status disk now (inactive status timestamp) file =
    write_status disk now (disk.to_string status)

abbrev pub with_time : ℕ → Option JobStatus → Option (JobStatus × ℕ)
with_time timestamp none = none
with_time timestamp (some status) = some (status, timestamp)

unfoldable pub load_status : Disk → StatusFile → Option (JobStatus × ℕ)
load_status disk absent = none
load_status disk unreadable = none
load_status disk (saved text timestamp) = with_time timestamp (disk.from_str text)
