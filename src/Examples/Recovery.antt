-- ===== src/Examples/Recovery.antt =====
-- A node that can not be started, one that is created, and one that is updated before it was ever
-- started: the theorems on bv/src/node.rs at concrete inputs.
use Prim.Native.String.{[]}
use blockvisor.Common.{
  ℕ, ◌+◌, ◌≤◌, ◌≡◌, refl, true, false, none, some, List, ◌∷◌, map, arith, ltb, if◌then◌else◌, [],
}
use blockvisor.Retry.{exp_backoff_timeout}
use blockvisor.CpuRegistry.{acquire, new_registry, mark_acquired}
use blockvisor.CpuRegistry.Owners.{count, count_held}
use blockvisor.NodeState.{
  NodeState, vm_shutoff, stopped, no_upgrade, stop_step, cpu_assignment, released_cpus,
}
use blockvisor.Node.{Node, Start, start, ◌then◌, choose}
use blockvisor.Node.Recovery.{no_backoff, recover, start_failed}
use blockvisor.Node.Recovery.Bounded.{Round, Unsettled, recover-bounded}
use blockvisor.Node.Lifecycle.{Creation, Deletion, create, delete, attach_all, attach_cpus}
use blockvisor.Node.Lifecycle.Deleted.{cpus_of, delete-create}
use blockvisor.Node.Lifecycle.Restarted.{held_by, attach_all-once}
use blockvisor.Node.Update.{ConfigUpdate, Update, update, updated, update_as, update_unless}
use blockvisor.Node.Update.Skipped.{update-start}
use blockvisor.Examples.Node.{details_of, state_of, starts, stops}

abbrev off_node : Node
off_node = record {
  state = state_of 2;
  saved = state_of 2;
  vm = vm_shutoff;
  connection_closed = true;
  connection_broken = false;
}

abbrev no_start : Start
no_start = record starts { machine_starts = false }

abbrev round_at : ℕ → Round
round_at now = record {
  vm = vm_shutoff;
  closed = true;
  broken = false;
  recovery = record {
    now = now;
    start = no_start;
    stop = stops;
    tests = false;
    closed = true;
    broken = false;
    machine_recovers = false;
    vm = vm_shutoff;
    tests_again = false;
    saves_failed = true;
  };
}

abbrev two_rounds : List Round
two_rounds = round_at 0 ∷ round_at 100000 ∷ []

two_rounds-Unsettled :
    Unsettled two_rounds (record { node = off_node; recovery_backoff = no_backoff })
unfolding recover start_failed ◌then◌ choose exp_backoff_timeout
two_rounds-Unsettled = (refl, (refl, (refl, (refl, tt))))

recover-bounded_example : 2 ≤ 10
recover-bounded_example = recover-bounded two_rounds off_node refl two_rounds-Unsettled

abbrev creates : Creation
creates = record {
  creates_dir = true;
  creates_machine = true;
  applies_firewall = true;
  saves = true;
  creates_engine = true;
}

abbrev deletes : Deletion
deletes = record {
  saves_status = true;
  engine_stops = true;
  machine_deletes = true;
  cleans_firewall = true;
  deletes_context = true;
}

delete-create_example :
    cpus_of (delete deletes (record { node = off_node; registry = 0 ∷ 1 ∷ [] })).0
    ≡ ([], 0 ∷ 1 ∷ 2 ∷ 3 ∷ [])
unfolding create acquire delete ◌then◌
delete-create_example =
    delete-create creates deletes (state_of 2) (0 ∷ 1 ∷ 2 ∷ 3 ∷ []) (0 ∷ 1 ∷ []) off_node refl refl

-- An upgrade to one core less was interrupted; the other node has steps of an old upgrade.
abbrev interrupted_state : NodeState
interrupted_state = record (state_of 1) {
  assigned_cpus = 2 ∷ [];
  upgrade_state = record no_upgrade {
    active = true;
    steps = stop_step ∷ cpu_assignment (released_cpus (3 ∷ [])) ∷ [];
  };
}

abbrev idle_state : NodeState
idle_state = record (state_of 1) {
  assigned_cpus = 0 ∷ [];
  upgrade_state = record no_upgrade { steps = cpu_assignment (released_cpus (1 ∷ [])) ∷ [] };
}

abbrev two_states : List NodeState
two_states = interrupted_state ∷ idle_state ∷ []

held_once : (c : ℕ) → count_held c (map held_by two_states) ≤ (if ltb c 4 then 1 else 0)
held_once c = ground arith

-- Core 3 is not free, and core 1 is.
found_again : attach_all two_states (new_registry 4) ≡ 1 ∷ []
unfolding attach_all attach_cpus mark_acquired new_registry
found_again = refl

attach_all-once_example :
    count 3 (attach_all two_states (new_registry 4)) + count_held 3 (map held_by two_states) ≡ 1
attach_all-once_example = attach_all-once 4 two_states held_once 3

abbrev new_state : NodeState
new_state = record (state_of 2) {
  details = record (details_of 2) { initialized = false };
  expected_status = stopped;
}

abbrev new_node : Node
new_node = record off_node { state = new_state; saved = new_state }

abbrev an_update : ConfigUpdate
an_update = record {
  config_id = "config";
  new_org_id = none;
  new_org_name = none;
  new_display_name = none;
  new_values = ("network", "mainnet") ∷ [];
  new_firewall = none;
}

abbrev updates : Update
updates = record {
  blocking_job = some false;
  applies_firewall = true;
  saves_config = true;
  updates_info = true;
  updates_plugin = true;
  sets_up = true;
  reloads_config = true;
  saves_initialized = true;
}

abbrev updated_node : Node
updated_node = (update updates an_update new_node).0

is_updated : update updates an_update new_node ≡ (updated_node, updated)
unfolding update update_as update_unless ◌then◌
is_updated = refl

update-start_example :
    start starts updated_node ≡ start (record starts { inits = false }) updated_node
update-start_example =
    update-start updates an_update new_node updated_node starts false refl is_updated
