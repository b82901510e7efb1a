-- ===== src/Backoff.antt =====
-- `Backoff` of babel/src/utils.rs, and `JobBackoff` and the loop of `ArchiveJobRunner` of
-- babel/src/job_runner.rs: when a job that has ended is run again. Times are in nanoseconds, and the
-- sleeps, which are returned, in milliseconds. A sleep that the run flag breaks off counts as one.
use blockvisor.Common.{
  ℕ, zero, ◌+◌, ◌-◌, ◌*◌, ◌%◌, ◌^◌, Bool, true, false, not, ◌||◌, Option, none, some, List, [], ◌∷◌,
  ◌++◌, ltb, leb, if◌then◌else◌,
}
use Prim.Native.String.{String}
use blockvisor.Common.Int.{ℤ, pos, negsuc}
use blockvisor.Retry.{exp_backoff_timeout}
use blockvisor.Jobs.{
  Message, no_text, job_finished, job_failed, JobStatus, finished, RestartConfig, RestartPolicy,
  never, always, on_failure,
}
use blockvisor.JobsManager.Rounds.{JobReport, report_log, report_restart}
pub mod Limits

pub record Backoff : Type 0 where
  pub counter : ℕ  -- u32
  pub timestamp : ℕ
  pub backoff_base_ms : ℕ  -- u64
  pub reset_timeout : ℕ

pub data TimeoutStatus : Type 0 where
  expired : TimeoutStatus
  should_wait : TimeoutStatus

pub data LimitStatus : Type 0 where
  within : LimitStatus
  exceeded : LimitStatus

abbrev pub new_backoff : ℕ → RestartConfig → Backoff
new_backoff now config = record {
  counter = 0;
  timestamp = now;
  backoff_base_ms = config.backoff_base_ms;
  reset_timeout = config.backoff_timeout_ms * 1_000_000;
}

-- `Backoff::start`.
abbrev pub stamp : ℕ → Backoff → Backoff
stamp now b = record b { timestamp = now }

-- `duration_since` is 0 where the stamp is later.
abbrev pub check_timeout : ℕ → Backoff → Backoff × TimeoutStatus
check_timeout now b =
    if ltb b.reset_timeout (now - b.timestamp)
    then (record b { counter = 0 }, expired)
    else (b, should_wait)

abbrev pub sleep_backoff : Backoff → Backoff × List ℕ
sleep_backoff b = (
  record b { counter = (b.counter + 1) % 2 ^ 32 },
  exp_backoff_timeout b.backoff_base_ms b.counter ∷ [],
)

abbrev pub wait_status : Backoff × TimeoutStatus → Backoff × List ℕ
wait_status (b, expired) = (b, [])
wait_status (b, should_wait) = sleep_backoff b

unfoldable pub wait : ℕ → Backoff → Backoff × List ℕ
wait now b = wait_status (check_timeout now b)

abbrev pub limit_status : ℕ → Backoff × TimeoutStatus → Backoff × List ℕ × LimitStatus
limit_status max_retries (b, expired) = (b, [], within)
limit_status max_retries (b, should_wait) =
    if leb max_retries b.counter
    then (b, [], exceeded)
    else ((sleep_backoff b).0, (sleep_backoff b).1, within)

unfoldable pub wait_with_limit : ℕ → ℕ → Backoff → Backoff × List ℕ × LimitStatus
wait_with_limit now max_retries b = limit_status max_retries (check_timeout now b)

pub record JobBackoff : Type 0 where
  pub backoff : Option Backoff
  pub max_retries : Option ℕ  -- u32
  pub restart_always : Bool

unfoldable pub new_job_backoff : ℕ → RestartPolicy → JobBackoff
new_job_backoff now never = record { backoff = none; max_retries = none; restart_always = false }
new_job_backoff now (always config) = record {
  backoff = some (new_backoff now config);
  max_retries = config.max_retries;
  restart_always = true;
}
new_job_backoff now (on_failure config) = record {
  backoff = some (new_backoff now config);
  max_retries = config.max_retries;
  restart_always = false;
}

abbrev pub stamp_some : ℕ → Option Backoff → Option Backoff
stamp_some now none = none
stamp_some now (some b) = some (stamp now b)

abbrev pub start_backoff : ℕ → JobBackoff → JobBackoff
start_backoff now jb = record jb { backoff = stamp_some now jb.backoff }

-- What a stop leads to: the sleeps, the reports to the manager, and, where the job is not run again,
-- its status.
pub record Stop : Type 0 where
  pub after : JobBackoff
  pub slept : List ℕ
  pub reports : List JobReport
  pub result : Option JobStatus

abbrev pub is_success : Option ℤ → Bool
is_success (some (pos zero)) = true
is_success _ = false

abbrev pub retry_or_end :
    String → Option ℤ → Message → JobBackoff → Backoff × List ℕ × LimitStatus → Stop
retry_or_end name exit_code message jb (b, slept, exceeded) = record {
  after = record jb { backoff = some b };
  slept = slept;
  reports = report_log name message ∷ [];
  result = some (finished exit_code message);
}
retry_or_end name exit_code message jb (b, slept, within) = record {
  after = record jb { backoff = some b };
  slept = slept;
  reports = report_log name message ∷ report_restart name ∷ [];
  result = none;
}

abbrev pub wait_for_retry : ℕ → Option ℕ → Backoff → Backoff × List ℕ × LimitStatus
wait_for_retry now none b = ((wait now b).0, (wait now b).1, within)
wait_for_retry now (some max_retries) b = wait_with_limit now max_retries b

abbrev pub failed_stop : String → ℕ → Option ℤ → Message → JobBackoff → Option Backoff → Stop
failed_stop name now exit_code message jb none = record {
  after = jb;
  slept = [];
  reports = report_log name message ∷ [];
  result = some (finished exit_code message);
}
failed_stop name now exit_code message jb (some b) =
    retry_or_end name exit_code message jb (wait_for_retry now jb.max_retries b)

-- `JobBackoff::stopped`; what the calls of the manager answer is ignored.
unfoldable pub stopped_job : String → ℕ → Option ℤ → Message → JobBackoff → Stop
stopped_job name now exit_code message jb =
    if jb.restart_always || not (is_success exit_code)
    then failed_stop name now exit_code message jb jb.backoff
    else (record {
      after = jb;
      slept = [];
      reports = [];
      result = some (finished exit_code no_text);
    })

-- One run of the job: when it began and ended, and its error.
pub record Attempt : Type 0 where
  pub started : ℕ
  pub ended : ℕ
  pub error : Option String

abbrev pub attempt_stop : String → Attempt → Option String → JobBackoff → Stop
attempt_stop name attempt none jb =
    stopped_job name attempt.ended (some (pos 0)) (job_finished name) jb
attempt_stop name attempt (some error) jb =
    stopped_job name attempt.ended (some (negsuc 0)) (job_failed name error) jb

pub record Ran : Type 0 where
  pub slept : List ℕ
  pub reports : List JobReport
  pub result : Option JobStatus

abbrev pub go_on : Stop → Ran → Ran
go_on stop rest = elim stop.result [
  | some status ↦ record { slept = stop.slept; reports = stop.reports; result = some status }
  | none ↦ record {
    slept = stop.slept ++ rest.slept;
    reports = stop.reports ++ rest.reports;
    result = rest.result;
  }
]

-- The loop over the runs, which the run flag ends after the last one: then there is no status.
unfoldable pub run_loop : String → JobBackoff → List Attempt → Ran
run_loop name jb [] = record { slept = []; reports = []; result = none }
run_loop name jb (attempt ∷ attempts) =
    let stop = attempt_stop name attempt attempt.error (start_backoff attempt.started jb) in
    go_on stop (run_loop name stop.after attempts)

unfoldable pub try_run_job : String → ℕ → RestartPolicy → List Attempt → Ran
unfolding new_job_backoff run_loop
try_run_job name now policy attempts = run_loop name (new_job_backoff now policy) attempts
