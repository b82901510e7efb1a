-- ===== src/Jobs/Logs.antt =====
-- The logs of a job of babel/src/jobs.rs: which are kept, and for how long.
use blockvisor.Common.{
  ℕ, ◌+◌, ◌-◌, ◌≤◌, ◌≡◌, ◌∙◌, refl, sym, ap, subst, inl, inr, Bool, List, [], ◌∷◌, ◌++◌, arith, ltb,
  leb, if◌then◌else◌, length, take-append-drop, retain, Bool-cases, length-append, take,
  length-take, length-drop, true, min, leb→le,
}
use mathlib.Core.Path.{fun_ext}
use blockvisor.Common.{length-retain-le}
use blockvisor.Jobs.{Message, Job, not_old, trim_logs, update, push_log}

-- A stamp of the last 24 hours, or of the future; times are in nanoseconds.
abbrev pub is_recent : ℕ → ℕ → Bool
is_recent now timestamp = ltb now (timestamp + 86_400_000_000_000)

not_old-is_recent : (now timestamp : ℕ) → not_old now timestamp ≡ is_recent now timestamp
not_old-is_recent now timestamp = ground arith

abbrev pub recent : ℕ → List (ℕ × Message) → List (ℕ × Message)
recent now = retain (λ ((timestamp, _) : ℕ × Message). is_recent now timestamp)

abbrev unexpired : ℕ → List (ℕ × Message) → List (ℕ × Message)
unexpired now = retain (λ ((timestamp, _) : ℕ × Message). not_old now timestamp)

unexpired-recent : (now : ℕ) (logs : List (ℕ × Message)) → unexpired now logs ≡ recent now logs
unexpired-recent now logs =
    ap (λ test. retain (λ ((timestamp, _) : ℕ × Message). test timestamp) logs)
      (fun_ext (not_old-is_recent now))

length-trim_logs :
    (logs : List (ℕ × Message))
    → length (trim_logs logs) ≡ (if leb 1024 (length logs) then length logs - 1023 else length logs)
length-trim_logs logs = ground (arith, length-drop 1023 logs)

update-length :
    (now : ℕ) (job : Job)
    → let n = length (unexpired now job.logs) in
      length (update now job).logs ≡ (if leb 1024 n then n - 1023 else n)
unfolding update
update-length now job = length-trim_logs (unexpired now job.logs)

min-enough : (n : ℕ) → leb 1024 n ≡ true → min 1023 n ≡ 1023
min-enough n h = let le = leb→le 1024 n h in omega arith

-- What is trimmed is at the front.
trim_logs-suffix :
    (logs : List (ℕ × Message))
    → (dropped : List (ℕ × Message)) × (logs ≡ dropped ++ trim_logs logs)
      × (length dropped ≡ (if leb 1024 (length logs) then 1023 else 0))
trim_logs-suffix logs = elim (Bool-cases (leb 1024 (length logs))) [
  | inl e ↦ (
    take 1023 logs,
    rw e (sym (take-append-drop 1023 logs)),
    rw e (length-take 1023 logs ∙ min-enough (length logs) e),
  )
  | inr e ↦ ([], rw e refl, rw e refl)
]

-- After `update` a job with fewer than 1024 log messages of the last 24 hours keeps all of them; one
-- with `n` of them, from 1024 on, keeps all but the first 1023, the last `n - 1023` in their order: a
-- single one for 1024. Of the stamps of restarts it keeps those of the last 24 hours.
pub update-keeps :
    (now : ℕ) (job : Job)
    → ((dropped : List (ℕ × Message)) × (recent now job.logs ≡ dropped ++ (update now job).logs)
        × (length dropped ≡ (if leb 1024 (length (recent now job.logs)) then 1023 else 0)))
      × ((update now job).restart_stamps ≡ retain (is_recent now) job.restart_stamps)
unfolding update
update-keeps now job = (
  subst
      (λ logs.
        (dropped : List (ℕ × Message)) × (logs ≡ dropped ++ (update now job).logs)
        × (length dropped ≡ (if leb 1024 (length logs) then 1023 else 0)))
      (unexpired-recent now job.logs) (trim_logs-suffix (unexpired now job.logs)),
  ap (λ test. retain test job.restart_stamps) (fun_ext (not_old-is_recent now)),
)

one_more : (n m : ℕ) → n ≤ m → m ≤ 1024 → (if leb 1024 n then n - 1023 else n) + 1 ≤ 1024
one_more n m h k = ground arith

-- `push_log` puts the whole message behind the logs that are kept, and keeps a job that has at most
-- 1024 of them at that.
pub push_log-bounded :
    (now : ℕ) (message : Message) (job : Job)
    → length job.logs ≤ 1024
    → (length (push_log now message job).logs ≤ 1024)
      × ((push_log now message job).logs ≡ (update now job).logs ++ (now, message) ∷ [])
unfolding push_log
push_log-bounded now message job h =
    let few = length-retain-le (λ ((timestamp, _) : ℕ × Message). not_old now timestamp) job.logs in
    let sum = length-append (update now job).logs ((now, message) ∷ []) in
    let fits = one_more (length (unexpired now job.logs)) (length job.logs) few h in
    (rw (sum, update-length now job) fits, refl)
