-- ===== src/Examples/Backoff.antt =====
-- A job that crashes: the theorems on babel/src/job_runner.rs at concrete inputs.
use blockvisor.Common.{ℕ, ◌≡◌, refl, inl, inr, none, some, List, [], ◌∷◌, ◌++◌, map, arith}
use blockvisor.Common.Int.{negsuc}
use blockvisor.Jobs.{finished, RestartConfig, always, on_failure}
use blockvisor.JobsManager.Rounds.{report_log}
use blockvisor.Backoff.{try_run_job}
use blockvisor.Backoff.Limits.{
  Crash, crash_attempt, crash_message, backoffs, retry_reports, try_run_job-crashes,
  try_run_job-slow,
}

abbrev a_restart : RestartConfig
a_restart = record { backoff_timeout_ms = 10; backoff_base_ms = 500; max_retries = some 2 }

abbrev crash_at : ℕ → ℕ → Crash
crash_at started ended = record { started = started; ended = ended; error = "broken" }

abbrev two_crashes : List Crash
two_crashes = crash_at 100 200 ∷ crash_at 300 10_000_300 ∷ []

try_run_job-crashes_example :
    try_run_job "job" 50
      (on_failure a_restart)
      (map crash_attempt two_crashes ++ crash_attempt (crash_at 400 500) ∷ [])
    ≡ record {
      slept = backoffs 500 0 2;
      reports =
          retry_reports "job" two_crashes
          ++ report_log "job" (crash_message "job" (crash_at 400 500)) ∷ [];
      result = some (finished (some (negsuc 0)) (crash_message "job" (crash_at 400 500)));
    }
try_run_job-crashes_example =
    try_run_job-crashes "job" 50 2 (on_failure a_restart) a_restart two_crashes (crash_at 400 500)
      [] (inr refl) refl refl (omega arith) (omega arith, (omega arith, tt)) (omega arith)

abbrev slow_crashes : List Crash
slow_crashes = crash_at 100 20_000_000 ∷ crash_at 30_000_000 50_000_000 ∷ []

try_run_job-slow_example :
    try_run_job "job" 50 (always a_restart) (map crash_attempt slow_crashes)
    ≡ record { slept = []; reports = retry_reports "job" slow_crashes; result = none }
try_run_job-slow_example =
    try_run_job-slow "job" 50 (always a_restart) a_restart slow_crashes (inl refl)
      (omega arith, (omega arith, tt))
