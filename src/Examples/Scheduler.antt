-- ===== src/Examples/Scheduler.antt =====
-- A schedule with every even time: the theorems on bv/src/scheduler.rs at concrete inputs.
use blockvisor.Common.{ℕ, ◌+◌, ◌-◌, ◌%◌, ◌≡◌, Bool, Option, some, [], ◌∷◌, ◌++◌, ◌==◌}
use Prim.Native.String.{String}
use blockvisor.Scheduler.{Scheduled, Tasks, add, handle_action}
use blockvisor.Scheduler.Names.{IsOnly, others, handle_action-IsOnly}

abbrev is_even : String → ℕ → Bool
is_even schedule time = (time % 2) == 0

abbrev next_even : String → ℕ → Option ℕ
next_even schedule a = some (a + (2 - a % 2))

abbrev task_of : String → String → Scheduled
task_of node_id name = record {
  node_id = node_id;
  name = name;
  schedule = "* * * * * *";
  function_name = "upload";
  function_param = "";
}

abbrev two_tasks : Tasks
two_tasks = (1, task_of "first" "upload") ∷ (2, task_of "second" "clean") ∷ []

-- The first node's task is replaced by the second one's.
handle_action-IsOnly_example :
    IsOnly (task_of "second" "upload") (handle_action 3 two_tasks (add (task_of "second" "upload")))
    × (handle_action 3 two_tasks (add (task_of "second" "upload"))
        ≡ others "upload" two_tasks ++ (3, task_of "second" "upload") ∷ [])
handle_action-IsOnly_example = handle_action-IsOnly 3 two_tasks (task_of "second" "upload")
