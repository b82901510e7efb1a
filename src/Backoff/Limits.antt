-- ===== src/Backoff/Limits.antt =====
-- How often babel/src/job_runner.rs runs a job again, and how long it waits before.
use blockvisor.Common.{
  ℕ, zero, suc, ◌+◌, ◌-◌, ◌*◌, ◌%◌, ◌^◌, ◌≤◌, ◌<◌, ◌≡◌, refl, ap, ◌∙◌, ◌⊎◌, inl, inr, Bool, true,
  false, ◌||◌, none, some, List, [], ◌∷◌, ◌++◌, map, arith, ltb, leb, length, All, Option-cases,
}
use Prim.Native.String.{String}
use blockvisor.Common.Int.{negsuc}
use blockvisor.Retry.{exp_backoff_timeout}
use blockvisor.Jobs.{
  Message, job_failed, finished, RestartConfig, RestartPolicy, always, on_failure,
}
use blockvisor.JobsManager.Rounds.{JobReport, report_log, report_restart}
use blockvisor.Backoff.{
  new_backoff, wait, wait_with_limit, JobBackoff, new_job_backoff, start_backoff, stopped_job,
  Attempt, attempt_stop, run_loop, try_run_job,
}

-- A run that failed.
pub record Crash : Type 0 where
  pub started : ℕ
  pub ended : ℕ
  pub error : String

abbrev pub crash_attempt : Crash → Attempt
crash_attempt crash = record {
  started = crash.started;
  ended = crash.ended;
  error = some crash.error;
}

-- The run was no longer than the timeout, so the count goes on.
abbrev pub IsQuick : RestartConfig → Crash → Type 0
IsQuick config crash = crash.ended - crash.started ≤ config.backoff_timeout_ms * 1_000_000

abbrev pub IsSlow : RestartConfig → Crash → Type 0
IsSlow config crash = config.backoff_timeout_ms * 1_000_000 < crash.ended - crash.started

-- The times slept after `n` crashes in a row, of which the first is number `k`.
abbrev pub backoffs : ℕ → ℕ → ℕ → List ℕ
backoffs base k zero = []
backoffs base k (suc n) = exp_backoff_timeout base k ∷ backoffs base (k + 1) n

abbrev pub crash_message : String → Crash → Message
crash_message name crash = job_failed name crash.error

abbrev pub retry_reports : String → List Crash → List JobReport
retry_reports name [] = []
retry_reports name (crash ∷ crashes) =
    report_log name (crash_message name crash) ∷ report_restart name ∷ retry_reports name crashes

module _ (name : String) (config : RestartConfig) (restart_always : Bool) where
  abbrev counted : ℕ → ℕ → JobBackoff
  counted now counter = record {
    backoff = some (record (new_backoff now config) { counter = counter });
    max_retries = config.max_retries;
    restart_always = restart_always;
  }

  goes_on : (b : Bool) → (b || true) ≡ true
  goes_on true = refl
  goes_on false = refl

  retried :
      (crash : Crash) (now counter max_retries : ℕ)
      → config.max_retries ≡ some max_retries
      → IsQuick config crash
      → counter < max_retries
      → max_retries < 2 ^ 32
      → attempt_stop name
          (crash_attempt crash)
          (some crash.error)
          (start_backoff crash.started (counted now counter))
        ≡ record {
          after = counted crash.started (counter + 1);
          slept = exp_backoff_timeout config.backoff_base_ms counter ∷ [];
          reports = report_log name (crash_message name crash) ∷ report_restart name ∷ [];
          result = none;
        }
  unfolding stopped_job wait_with_limit
  retried crash now counter max_retries limit quick more small =
      let timeout = config.backoff_timeout_ms * 1_000_000 in
      let not_expired : ltb timeout (crash.ended - crash.started) ≡ false = ground arith in
      let room : leb max_retries counter ≡ false = ground arith in
      let no_wrap : (counter + 1) % 2 ^ 32 ≡ counter + 1 = omega arith in
      rw (goes_on restart_always, limit, not_expired, room, no_wrap) refl

  ended :
      (crash : Crash) (now counter : ℕ)
      → config.max_retries ≡ some counter
      → IsQuick config crash
      → attempt_stop name
          (crash_attempt crash)
          (some crash.error)
          (start_backoff crash.started (counted now counter))
        ≡ record {
          after = counted crash.started counter;
          slept = [];
          reports = report_log name (crash_message name crash) ∷ [];
          result = some (finished (some (negsuc 0)) (crash_message name crash));
        }
  unfolding stopped_job wait_with_limit
  ended crash now counter limit quick =
      let timeout = config.backoff_timeout_ms * 1_000_000 in
      let not_expired : ltb timeout (crash.ended - crash.started) ≡ false = ground arith in
      let no_room : leb counter counter ≡ true = ground arith in
      rw (goes_on restart_always, limit, not_expired, no_room) refl

  crash_loop :
      (quick : List Crash) (last : Crash) (more : List Attempt) (now counter max_retries : ℕ)
      → config.max_retries ≡ some max_retries
      → counter + length quick ≡ max_retries
      → max_retries < 2 ^ 32
      → All (IsQuick config) quick
      → IsQuick config last
      → run_loop name (counted now counter) (map crash_attempt quick ++ crash_attempt last ∷ more)
        ≡ record {
          slept = backoffs config.backoff_base_ms counter (length quick);
          reports = retry_reports name quick ++ report_log name (crash_message name last) ∷ [];
          result = some (finished (some (negsuc 0)) (crash_message name last));
        }
  unfolding run_loop
  crash_loop [] last more now counter max_retries limit count small quick quick_last =
      let same : config.max_retries ≡ some counter = limit ∙ ap some (omega arith) in
      rw (ended last now counter same quick_last) refl
  crash_loop (crash ∷ crashes) last more now counter max_retries limit count small (quick, others)
        quick_last =
      rw
        (
          retried crash now counter max_retries limit quick (omega arith) small,
          crash_loop crashes last more crash.started (counter + 1) max_retries limit (omega arith)
              small others quick_last,
        )
        refl

  slow_stop :
      (crash : Crash) (now counter : ℕ)
      → IsSlow config crash
      → attempt_stop name
          (crash_attempt crash)
          (some crash.error)
          (start_backoff crash.started (counted now counter))
        ≡ record {
          after = counted crash.started 0;
          slept = [];
          reports = report_log name (crash_message name crash) ∷ report_restart name ∷ [];
          result = none;
        }
  unfolding stopped_job wait_with_limit wait
  slow_stop crash now counter slow =
      let timeout = config.backoff_timeout_ms * 1_000_000 in
      let is_expired : ltb timeout (crash.ended - crash.started) ≡ true = ground arith in
      elim (Option-cases config.max_retries) [
        | inl e ↦ rw (goes_on restart_always, e, is_expired) refl
        | inr (n, e) ↦ rw (goes_on restart_always, e, is_expired) refl
      ]

  slow_loop :
      (crashes : List Crash) (now counter : ℕ)
      → All (IsSlow config) crashes
      → run_loop name (counted now counter) (map crash_attempt crashes)
        ≡ record { slept = []; reports = retry_reports name crashes; result = none }
  unfolding run_loop
  slow_loop [] now counter slow = refl
  slow_loop (crash ∷ crashes) now counter (slow, others) =
      rw (slow_stop crash now counter slow, slow_loop crashes crash.started 0 others) refl

-- The policies that restart a job that failed.
abbrev pub Retries : RestartPolicy → RestartConfig → Type 0
Retries policy config = (policy ≡ always config) ⊎ (policy ≡ on_failure config)

-- A job that fails in quick succession, each run no longer than the backoff timeout, is run again as
-- often as `max_retries` says, after the sleeps of `exp_backoff_timeout` for 0, 1 and so on, with a log and a restart
-- reported for each failure. The next failure ends it, with exit code -1 and that failure's message.
pub try_run_job-crashes :
    (name : String) (now max_retries : ℕ) (policy : RestartPolicy) (config : RestartConfig)
    (quick : List Crash) (last : Crash) (more : List Attempt)
    → Retries policy config
    → config.max_retries ≡ some max_retries
    → length quick ≡ max_retries
    → max_retries < 2 ^ 32
    → All (IsQuick config) quick
    → IsQuick config last
    → try_run_job name now policy (map crash_attempt quick ++ crash_attempt last ∷ more) ≡ record {
      slept = backoffs config.backoff_base_ms 0 max_retries;
      reports = retry_reports name quick ++ report_log name (crash_message name last) ∷ [];
      result = some (finished (some (negsuc 0)) (crash_message name last));
    }
unfolding try_run_job new_job_backoff
try_run_job-crashes name now max_retries policy config quick last more (inl e) limit count small
      crashes crash =
    rw (e, ← count)
      (crash_loop name config true quick last more now 0 max_retries limit (omega arith) small
        crashes crash)
try_run_job-crashes name now max_retries policy config quick last more (inr e) limit count small
      crashes crash =
    rw (e, ← count)
      (crash_loop name config false quick last more now 0 max_retries limit (omega arith) small
        crashes crash)

-- A job whose runs fail, but each take longer than the backoff timeout, is run again each time and at
-- once, whatever the limit of retries: it never ends by itself.
pub try_run_job-slow :
    (name : String) (now : ℕ) (policy : RestartPolicy) (config : RestartConfig)
    (crashes : List Crash)
    → Retries policy config
    → All (IsSlow config) crashes
    → try_run_job name now policy (map crash_attempt crashes)
      ≡ record { slept = []; reports = retry_reports name crashes; result = none }
unfolding try_run_job new_job_backoff
try_run_job-slow name now policy config crashes (inl e) slow =
    rw e (slow_loop name config true crashes now 0 slow)
try_run_job-slow name now policy config crashes (inr e) slow =
    rw e (slow_loop name config false crashes now 0 slow)
