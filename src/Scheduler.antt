-- ===== src/Scheduler.antt =====
-- bv/src/scheduler.rs: the tasks that the plugins of a host's nodes schedule, and the worker that runs
-- them. The schedules of the crate cron are a parameter: the first time of a schedule after a time. The
-- iterator that `after` gives goes on from each time to the first one after it.
use blockvisor.Common.{
  ℕ, zero, suc, ◌+◌, ◌-◌, min, not, Option, none, some, List, [], ◌∷◌, ◌++◌, retain, ltb,
  if◌then◌else◌,
}
use Prim.Native.String.{String}
use package.text.Mathlib.Text.{◌==◌ as ◌=s◌}
pub mod Names
pub mod Times
pub mod Turns
pub mod Once

pub record Scheduled : Type 0 where
  pub node_id : String
  pub name : String
  pub schedule : String
  pub function_name : String
  pub function_param : String

pub data Action : Type 0 where
  add : Scheduled → Action
  delete : String → Action
  delete_node : String → Action

abbrev pub Tasks : Type 0
Tasks = List (ℕ × Scheduled)

unfoldable pub handle_action : ℕ → Tasks → Action → Tasks
handle_action now tasks (add task) =
    retain (λ ((_, existing) : ℕ × Scheduled). not (existing.name =s task.name)) tasks
    ++ (now, task) ∷ []
handle_action now tasks (delete name) =
    retain (λ ((_, task) : ℕ × Scheduled). not (task.name =s name)) tasks
handle_action now tasks (delete_node node_id) =
    retain (λ ((_, task) : ℕ × Scheduled). not (task.node_id =s node_id)) tasks

-- How the loop over the next times of a task ends: there is no next time, or there is one and the time
-- left to it is known.
pub data Turn : Type 0 where
  no_next : Turn
  waits : ℕ → Turn
  out_of_fuel : Turn

-- What a round of the worker handles, each task at a time of its schedule, the tasks that are left,
-- and how long it may sleep.
pub record Worked : Type 0 where
  pub handled : List (ℕ × Scheduled)
  pub remaining : Tasks
  pub ttn : Option ℕ

abbrev pub min_some : ℕ → Option ℕ → Option ℕ
min_some new_ttn none = some new_ttn
min_some new_ttn (some old_ttn) = some (min new_ttn old_ttn)

-- `(next - now).to_std()`, which is an error where `next` is before `now`, where it is not zero.
abbrev pub new_ttn : ℕ → ℕ → Option ℕ
new_ttn next now =
    if ltb next now then none else if ltb 0 (next - now) then some (next - now) else none

abbrev pub Turned : Type 0
Turned = List (ℕ × Scheduled) × Turn

-- Where the next time is not after now, the task is handled, and the loop goes on.
abbrev pub handle_or_wait : Scheduled → ℕ → Option ℕ → Turned → Turned
handle_or_wait task next (some ttn) rest = ([], waits ttn)
handle_or_wait task next none (handled, end) = ((next, task) ∷ handled, end)

abbrev pub at_next : ℕ → Scheduled → (ℕ → Turned) → Option ℕ → Turned
at_next now task rest none = ([], no_next)
at_next now task rest (some next) = handle_or_wait task next (new_ttn next now) (rest next)

-- A task that has no next time is dropped.
abbrev pub keep : ℕ → Scheduled → Turned → Worked → Worked
keep now task (handled, waits ttn) rest = record {
  handled = handled ++ rest.handled;
  remaining = (now, task) ∷ rest.remaining;
  ttn = min_some ttn rest.ttn;
}
keep now task (handled, no_next) rest = record {
  handled = handled ++ rest.handled;
  remaining = rest.remaining;
  ttn = rest.ttn;
}
keep now task (handled, out_of_fuel) rest = record {
  handled = handled ++ rest.handled;
  remaining = rest.remaining;
  ttn = rest.ttn;
}

module _ (next_after : String → ℕ → Option ℕ) where
  -- The loop over the next times, on fuel.
  unfoldable pub turn : ℕ → ℕ → Scheduled → ℕ → Turned
  turn zero now task timestamp = ([], out_of_fuel)
  turn (suc fuel) now task timestamp =
      at_next now task (turn fuel now task) (next_after task.schedule timestamp)

  -- The loop over the tasks; the least time to the next is the same in any order.
  unfoldable pub work : ℕ → Tasks → Worked
  unfolding turn
  work now [] = record { handled = []; remaining = []; ttn = none }
  work now ((timestamp, task) ∷ tasks) =
      let rest = work now tasks in
      keep now task (turn (suc (now - timestamp)) now task timestamp) rest

  -- The rounds at some times, without an action in between.
  unfoldable pub work_rounds : List ℕ → Tasks → List (ℕ × Scheduled)
  unfolding work
  work_rounds [] tasks = []
  work_rounds (now ∷ nows) tasks =
      let worked = work now tasks in worked.handled ++ work_rounds nows worked.remaining
