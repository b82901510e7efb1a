-- ===== src/Scheduler/Once.antt =====
-- The worker of bv/src/scheduler.rs handles a task once at each time of its schedule.
use blockvisor.Common.{ℕ, ◌≤◌, Bool, Option, List, [], ◌∷◌, map}
use Prim.Native.String.{String}
use blockvisor.Scheduler.{Scheduled}
use blockvisor.Scheduler.Times.{Cron}

abbrev pub last_or : ℕ → List ℕ → ℕ
last_or first [] = first
last_or first (now ∷ nows) = last_or now nows

-- Each time is not before the one in front of it.
abbrev pub Ascending : ℕ → List ℕ → Type 0
Ascending first [] = Unit {0}
Ascending first (now ∷ nows) = (first ≤ now) × Ascending now nows

module _ (is_time : String → ℕ → Bool) (next_after : String → ℕ → Option ℕ)
    (cron : Cron is_time next_after) where
  abbrev at_times : Scheduled → List ℕ → List (ℕ × Scheduled)
  at_times task = map (λ (time : ℕ). (time, task))
