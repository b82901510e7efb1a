-- ===== src/Node/Rollback.antt =====
-- `rollback` and `try_rollback` of `Node` in bv/src/node.rs.
use blockvisor.Common.{ℕ, Bool, true, false, ◌&&◌, List, ◌++◌, if◌then◌else◌, drop, take}
use blockvisor.CpuRegistry.{release}
use blockvisor.NodeState.{
  UpgradeStep, CpuAssignmentUpdate, NodeState, no_update, acquired_cpus, released_cpus, is_vm,
  is_plugin, is_firewall, is_cpu_assignment, has_step, find_cpus, swap_remove, running, failed,
}
use blockvisor.Node.{
  Op, Start, Stop, ◌then◌, calls, save_state, change, save_expected_status, status, same_status,
  stop, choose,
}
use blockvisor.Node.Attempt.{Host, HostOp, on_node, set_cpus, start_if_stopped}

pub data Outcome : Type 0 where
  upgraded : Outcome
  rolled_back : Outcome  -- NodeUpgradeRollback
  upgrade_failure : Outcome  -- NodeUpgradeFailure
  blocking_job_running : Outcome
  internal : Outcome

pub record Rollback : Type 0 where
  pub stop : Stop
  pub saves_cpus : Bool
  pub machine_rolls_back : Bool
  pub saves_machine : Bool
  pub updates_info : Bool
  pub updates_plugin : Bool
  pub saves_plugin : Bool
  pub applies_firewall : Bool
  pub saves_firewall : Bool
  pub start : Start
  pub saves_failed : Bool
  pub saves_rolled_back : Bool

-- What the first assignment of cores did is taken back.
abbrev pub undo_cpus : CpuAssignmentUpdate → List ℕ → List ℕ → List ℕ × List ℕ
undo_cpus no_update cpus registry = (cpus, registry)
undo_cpus (acquired_cpus n) cpus registry = (take n cpus, release (drop n cpus) registry)
undo_cpus (released_cpus released) cpus registry = (cpus ++ released, registry)

abbrev pub remove_step : (UpgradeStep → Bool) → NodeState → NodeState
remove_step is_step state = record state {
  upgrade_state = record state.upgrade_state {
    steps = swap_remove is_step state.upgrade_state.steps;
  };
}

abbrev pub with_cpus : List ℕ × List ℕ → Host → Host
with_cpus (cpus, registry) host = record {
  node = record host.node { state = set_cpus cpus host.node.state };
  registry = registry;
}

abbrev pub undone_cpus : Host → List ℕ × List ℕ
undone_cpus host =
    undo_cpus (find_cpus host.node.state.upgrade_state.steps) host.node.state.assigned_cpus
      host.registry

unfoldable pub restore_cpus : Bool → HostOp
restore_cpus saves =
    choose (λ host. has_step is_cpu_assignment host.node.state)
      ((λ host. calls true (with_cpus (undone_cpus host) host))
        then on_node (change (remove_step is_cpu_assignment))
        then on_node (save_state saves))
      (calls true)

-- The step is removed once the call was successful.
unfoldable pub undo_step : (UpgradeStep → Bool) → Bool → Bool → Op
undo_step is_step success saves =
    choose (λ node. has_step is_step node.state)
      (calls success then change (remove_step is_step) then save_state saves) (calls true)

unfoldable pub stop_if_running : Stop → Op
unfolding stop status
stop_if_running env =
    choose (λ node. same_status (status node) running) (stop env true) (calls true)

unfoldable pub undo_steps : Rollback → Op
unfolding undo_step start_if_stopped
undo_steps env =
    undo_step is_vm env.machine_rolls_back env.saves_machine
    then undo_step is_plugin (env.updates_info && env.updates_plugin) env.saves_plugin
    then undo_step is_firewall env.applies_firewall env.saves_firewall
    then start_if_stopped env.start

unfoldable pub try_rollback : Rollback → HostOp
unfolding stop_if_running restore_cpus undo_steps
try_rollback env =
    on_node (stop_if_running env.stop)
    then restore_cpus env.saves_cpus
    then on_node (undo_steps env)

abbrev pub outcome_of : Outcome → Host × Bool → Host × Outcome
outcome_of outcome (host, true) = (host, outcome)
outcome_of outcome (host, false) = (host, internal)

-- The rest is done only where this was successful.
abbrev pub or_internal : Host × Bool → (Host → Host × Outcome) → Host × Outcome
or_internal (host, true) rest = rest host
or_internal (host, false) rest = (host, internal)

abbrev pub end_upgrade : NodeState → NodeState
end_upgrade state = record state { upgrade_state = record state.upgrade_state { active = false } }

abbrev pub end_rollback : Rollback → Host × Bool → Host × Outcome
end_rollback env (host, true) =
    outcome_of rolled_back (on_node (change end_upgrade then save_state env.saves_rolled_back) host)
end_rollback env (host, false) =
    outcome_of upgrade_failure
      (on_node (change end_upgrade then save_expected_status env.saves_failed failed) host)

unfoldable pub rollback : Rollback → Host → Host × Outcome
unfolding try_rollback
rollback env host = end_rollback env (try_rollback env host)
