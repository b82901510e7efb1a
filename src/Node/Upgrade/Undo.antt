-- ===== src/Node/Upgrade/Undo.antt =====
-- What the steps of `try_upgrade` in bv/src/node.rs keep, once the cores are assigned.
use blockvisor.Common.{ℕ, ◌≡◌, refl, ap, Bool, Option, List, [], ◌∷◌, ◌++◌}
use blockvisor.NodeState.{
  UpgradeStep, StateBackup, UpgradeState, CpuAssignmentUpdate, no_update, stop_step, cpu_assignment,
  vm_step, plugin_step, firewall_step, restart_step, is_stop, is_vm, is_plugin, is_firewall,
  has_step, find_cpus,
}
use blockvisor.Node.{Node, Op}
use blockvisor.Node.Keeps.{
  Keeps, keeps, ◌and_then◌, choose-keeps, mask, kept, save_state-keeps, start-keeps,
}
use blockvisor.Node.Attempt.{
  Host, Upgrade, on_node, with_node, unless_done, call_and_save, start_if_stopped, try_steps,
}
use blockvisor.Node.Rollback.{undo_cpus, undone_cpus}

-- How far the upgrade is: the backup, and whether it is active and to be rolled back.
abbrev pub Ledger : Type 0
Ledger = Option StateBackup × (Bool × Bool)

abbrev pub ledger : UpgradeState → Ledger
ledger upgrade = (upgrade.state_backup, (upgrade.active, upgrade.need_rollback))

abbrev pub Plan : Type 0
Plan = StateBackup × (List ℕ × (Ledger × CpuAssignmentUpdate))

abbrev pub plan : Node → Plan
plan node = (
  mask node.state.details,
  (
    node.state.assigned_cpus,
    (ledger node.state.upgrade_state, find_cpus node.state.upgrade_state.steps),
  ),
)

pub kept-plan : {op : Op} → Keeps kept op → Keeps plan op
kept-plan h =
    keeps (λ node. ap (λ k. (k.0, (k.1.0, (ledger k.1.1, find_cpus k.1.1.steps)))) (h.kept_by node))

pub find_cpus-push :
    (steps : List UpgradeStep) (step : UpgradeStep)
    → find_cpus (step ∷ []) ≡ no_update
    → find_cpus (steps ++ step ∷ []) ≡ find_cpus steps
find_cpus-push [] step h = h
find_cpus-push (stop_step ∷ steps) step h = find_cpus-push steps step h
find_cpus-push (cpu_assignment cpus ∷ steps) step h = refl
find_cpus-push (vm_step ∷ steps) step h = find_cpus-push steps step h
find_cpus-push (plugin_step ∷ steps) step h = find_cpus-push steps step h
find_cpus-push (firewall_step ∷ steps) step h = find_cpus-push steps step h
find_cpus-push (restart_step ∷ steps) step h = find_cpus-push steps step h

unless_done-keeps :
    (is_step : UpgradeStep → Bool) (step : UpgradeStep) {op : Op}
    → find_cpus (step ∷ []) ≡ no_update
    → Keeps kept op
    → Keeps plan (unless_done is_step step op)
unfolding unless_done
unless_done-keeps is_step step h k =
    choose-keeps (λ node. has_step is_step node.state) (keeps (λ node. refl))
      (keeps (λ node.
          ap
            (λ found. (
              mask node.state.details,
              (node.state.assigned_cpus, (ledger node.state.upgrade_state, found)),
            ))
            (find_cpus-push node.state.upgrade_state.steps step h))
        and_then kept-plan k)

call_and_save-keeps : (success saves : Bool) → Keeps kept (call_and_save success saves)
call_and_save-keeps success saves = save_state-keeps saves and_then keeps (λ node. refl)

pub start_if_stopped-keeps : (env : Upgrade) → Keeps kept (start_if_stopped env.start)
unfolding start_if_stopped
start_if_stopped-keeps env =
    choose-keeps (λ node. has_step is_stop node.state) (start-keeps env.start)
      (keeps (λ node. refl))

pub try_steps-keeps : (env : Upgrade) → Keeps plan (try_steps env)
unfolding try_steps
try_steps-keeps env =
    unless_done-keeps is_vm vm_step refl
      (call_and_save-keeps env.machine_upgrades env.saves_machine)
    and_then unless_done-keeps is_plugin plugin_step refl
        (keeps (λ node. refl) and_then call_and_save-keeps env.updates_plugin env.saves_plugin)
    and_then unless_done-keeps is_firewall firewall_step refl
        (call_and_save-keeps env.applies_firewall env.saves_firewall)
    and_then kept-plan (start_if_stopped-keeps env)

-- The details, how far the upgrade is, and the cores of the node and of the host once the assignment is undone.
abbrev pub whole : Host → StateBackup × (Ledger × (List ℕ × List ℕ))
whole host =
    (mask host.node.state.details, (ledger host.node.state.upgrade_state, undone_cpus host))

with_node-whole :
    (host : Host) (r : Node × Bool)
    → plan r.0 ≡ plan host.node
    → whole (with_node host r).0 ≡ whole host
with_node-whole host (node, success) h =
    ap (λ p. (p.0, (p.1.1.0, undo_cpus p.1.1.1 p.1.0 host.registry))) h

pub on_node-whole : {op : Op} → Keeps plan op → Keeps whole (on_node op)
on_node-whole {op} h = keeps (λ host. with_node-whole host (op host.node) (h.kept_by host.node))
