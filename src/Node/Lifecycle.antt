-- ===== src/Node/Lifecycle.antt =====
-- How nodes of bv/src/node.rs are created, deleted, and found again by `load_nodes` of
-- bv/src/nodes_manager.rs, with the cores that they hold.
use blockvisor.Common.{ℕ, Bool, true, ◌&&◌, Option, none, some, List, ◌∷◌, if◌then◌else◌, []}
use blockvisor.CpuRegistry.{acquire, mark_acquired, release}
use blockvisor.NodeState.{CpuAssignmentUpdate, NodeState, released_cpus, find_cpus, stopped}
use blockvisor.Node.{◌then◌, calls, save_expected_status}
use blockvisor.Node.Attempt.{HostOp, on_node, set_cpus, assigned}
pub mod Deleted
pub mod Restarted

-- Which calls of `try_create` are successful.
pub record Creation : Type 0 where
  pub creates_dir : Bool
  pub creates_machine : Bool
  pub applies_firewall : Bool
  pub saves : Bool
  pub creates_engine : Bool

abbrev pub try_create : Creation → Bool
try_create env =
    env.creates_dir && env.creates_machine && env.applies_firewall && env.saves
    && env.creates_engine

-- The errors of `cleanup` are only reported.
abbrev pub create_with :
    Creation → NodeState → List ℕ → Option (List ℕ × List ℕ) → List ℕ × Option NodeState
create_with env state registry none = (registry, none)
create_with env state registry (some (cpus, rest)) =
    if try_create env then (rest, some (set_cpus cpus state)) else (release cpus rest, none)

-- The registry, and the state of the node where it was created.
unfoldable pub create : Creation → NodeState → List ℕ → List ℕ × Option NodeState
create env state registry =
    create_with env state registry (acquire state.details.vm_config.vcpu_count registry)

pub record Deletion : Type 0 where
  pub saves_status : Bool
  pub engine_stops : Bool
  pub machine_deletes : Bool
  pub cleans_firewall : Bool
  pub deletes_context : Bool

-- `append` leaves the node without cores.
abbrev pub release_assigned : HostOp
release_assigned host = (
  record {
    node = record host.node { state = set_cpus [] host.node.state };
    registry = release (assigned host) host.registry;
  },
  true,
)

abbrev pub delete_machine : Deletion → HostOp
delete_machine env =
    on_node (save_expected_status env.saves_status stopped)
    then calls env.engine_stops
    then calls env.machine_deletes

abbrev pub clean_host : Deletion → HostOp
clean_host env = calls env.cleans_firewall then calls env.deletes_context

unfoldable pub delete : Deletion → HostOp
delete env = delete_machine env then release_assigned then clean_host env

abbrev pub released_of : CpuAssignmentUpdate → List ℕ
released_of (released_cpus cpus) = cpus
released_of _ = []

-- What an interrupted upgrade has taken from the node, but not yet released.
abbrev pub pending_cpus : NodeState → List ℕ
pending_cpus state =
    if state.upgrade_state.active then released_of (find_cpus state.upgrade_state.steps) else []

unfoldable pub attach_cpus : NodeState → List ℕ → List ℕ
attach_cpus state registry =
    mark_acquired (pending_cpus state) (mark_acquired state.assigned_cpus registry)

-- The nodes whose state can be read, be they attached or broken.
unfoldable pub attach_all : List NodeState → List ℕ → List ℕ
attach_all [] registry = registry
attach_all (state ∷ states) registry = attach_all states (attach_cpus state registry)
