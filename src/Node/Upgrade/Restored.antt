-- ===== src/Node/Upgrade/Restored.antt =====
-- What `try_rollback` of bv/src/node.rs restores.
use blockvisor.Common.{
  ℕ, ◌≡◌, refl, sym, ap, ◌∙◌, Bool, true, false, ◌&&◌, List, arith, if◌then◌else◌,
}
use blockvisor.NodeState.{
  UpgradeStep, StateBackup, is_stop, is_vm, is_plugin, is_firewall, is_cpu_assignment, has_step,
  running, failed,
}
use blockvisor.Node.{
  Node, Op, ◌then◌, calls, save_state, change, choose, status, same_status, save_expected_status,
}
use blockvisor.Node.Keeps.{
  Keeps, keeps, ◌and_then◌, choose-keeps, then-second, mask, kept, save_state-keeps, start-keeps,
  stop-keeps, then-succeeds,
}
use blockvisor.Node.Attempt.{Host, HostOp, on_node, with_node, assigned, start_if_stopped}
use blockvisor.Node.Rollback.{
  Outcome, Rollback, rollback, outcome_of, end_upgrade, rolled_back, upgrade_failure, undo_cpus,
  undone_cpus, restore_cpus, undo_step, undo_steps, stop_if_running, try_rollback, end_rollback,
  remove_step, with_cpus,
}
use blockvisor.Node.Upgrade.Assigned.{find_cpus-none}
use blockvisor.Node.Upgrade.Undo.{kept-plan, on_node-whole}

abbrev pub Seen : Type 0
Seen = StateBackup × (List ℕ × List ℕ)

abbrev pub node_view : Node → StateBackup × List ℕ
node_view node = (mask node.state.details, node.state.assigned_cpus)

-- The details but for whether the node is initialized, its cores, and those of the host.
abbrev pub seen : Host → Seen
seen host = (mask host.node.state.details, (host.node.state.assigned_cpus, host.registry))

pub kept-node_view : {op : Op} → Keeps kept op → Keeps node_view op
kept-node_view h = keeps (λ node. ap (λ k. (k.0, k.1.0)) (h.kept_by node))

with_node-seen :
    (host : Host) (r : Node × Bool)
    → node_view r.0 ≡ node_view host.node
    → seen (with_node host r).0 ≡ seen host
with_node-seen host (node, success) h = ap (λ m. (m.0, (m.1, host.registry))) h

pub on_node-seen : {op : Op} → Keeps node_view op → Keeps seen (on_node op)
on_node-seen {op} h = keeps (λ host. with_node-seen host (op host.node) (h.kept_by host.node))

undo_step-keeps :
    (is_step : UpgradeStep → Bool) (success saves : Bool)
    → Keeps node_view (undo_step is_step success saves)
unfolding undo_step
undo_step-keeps is_step success saves =
    choose-keeps (λ node. has_step is_step node.state)
      (keeps (λ node. refl)
        and_then keeps (λ node. refl)
        and_then kept-node_view (save_state-keeps saves))
      (keeps (λ node. refl))

undo_steps-keeps : (env : Rollback) → Keeps node_view (undo_steps env)
unfolding undo_steps start_if_stopped
undo_steps-keeps env =
    undo_step-keeps is_vm env.machine_rolls_back env.saves_machine
    and_then undo_step-keeps is_plugin (env.updates_info && env.updates_plugin) env.saves_plugin
    and_then undo_step-keeps is_firewall env.applies_firewall env.saves_firewall
    and_then choose-keeps (λ node. has_step is_stop node.state)
        (kept-node_view (start-keeps env.start)) (keeps (λ node. refl))

-- What is seen once the assignment of cores is undone.
abbrev pub restored : Host → Seen
restored host = (mask host.node.state.details, undone_cpus host)

stop_if_running-keeps : (env : Rollback) → Keeps kept (stop_if_running env.stop)
unfolding stop_if_running
stop_if_running-keeps env =
    choose-keeps (λ node. same_status (status node) running) (stop-keeps env.stop true)
      (keeps (λ node. refl))

abbrev restoring : Bool → HostOp
restoring saves =
    (λ host. calls true (with_cpus (undone_cpus host) host))
    then on_node (change (remove_step is_cpu_assignment))
    then on_node (save_state saves)

if-restored :
    (saves b : Bool) (host : Host)
    → has_step is_cpu_assignment host.node.state ≡ b
    → seen (if b then restoring saves host else calls true host).0 ≡ restored host
unfolding ◌then◌
if-restored saves true host e =
    (on_node-seen (kept-node_view (save_state-keeps saves))).kept_by
      ((on_node (change (remove_step is_cpu_assignment)) (with_cpus (undone_cpus host) host)).0)
if-restored saves false host e =
    ap (λ cpus. (mask host.node.state.details, undo_cpus cpus (assigned host) host.registry))
      (sym (find_cpus-none host.node.state.upgrade_state.steps e))

restore_cpus-seen : (saves : Bool) (host : Host) → seen (restore_cpus saves host).0 ≡ restored host
unfolding restore_cpus choose
restore_cpus-seen saves host =
    if-restored saves (has_step is_cpu_assignment host.node.state) host refl

try_rollback-seen :
    (env : Rollback) (host : Host)
    → (try_rollback env host).1 ≡ true
    → seen (try_rollback env host).0 ≡ restored host
unfolding try_rollback
try_rollback-seen env host e =
    let stops = on_node (stop_if_running env.stop) in
    let rest = restore_cpus env.saves_cpus then on_node (undo_steps env) in
    let stopped_host = (stops host).0 in
    let steps_seen : seen (rest stopped_host).0
        ≡ seen (restore_cpus env.saves_cpus stopped_host).0 =
      then-second (restore_cpus env.saves_cpus) (on_node-seen (undo_steps-keeps env))
        stopped_host in
    let kept_whole = (on_node-whole (kept-plan (stop_if_running-keeps env))).kept_by host in
    ap (λ r. seen r.0) (then-succeeds stops rest host e)
    ∙ steps_seen
    ∙ restore_cpus-seen env.saves_cpus stopped_host
    ∙ ap (λ w. (w.0, w.1.1)) kept_whole

pub outcome_of-seen :
    (outcome : Outcome) (r : Host × Bool) → seen (outcome_of outcome r).0 ≡ seen r.0
outcome_of-seen outcome (host, true) = refl
outcome_of-seen outcome (host, false) = refl

not_rolled_back : (r : Host × Bool) → ¬ ((outcome_of upgrade_failure r).1 ≡ rolled_back)
not_rolled_back (host, true) e = absurd (ground arith)
not_rolled_back (host, false) e = absurd (ground arith)

end_rollback-seen :
    (env : Rollback) (r : Host × Bool) (v : Seen)
    → (r.1 ≡ true → seen r.0 ≡ v)
    → (end_rollback env r).1 ≡ rolled_back
    → seen (end_rollback env r).0 ≡ v
end_rollback-seen env (host, true) v h e =
    outcome_of-seen rolled_back
      (on_node (change end_upgrade then save_state env.saves_rolled_back) host)
    ∙ (on_node-seen (
          keeps (λ node. refl)
          and_then kept-node_view (save_state-keeps env.saves_rolled_back))).kept_by
        host
    ∙ h refl
end_rollback-seen env (host, false) v h e = absurd (
    not_rolled_back
      (on_node (change end_upgrade then save_expected_status env.saves_failed failed) host) e)

pub rollback-seen :
    (env : Rollback) (host : Host)
    → (rollback env host).1 ≡ rolled_back
    → seen (rollback env host).0 ≡ restored host
unfolding rollback
rollback-seen env host e =
    end_rollback-seen env (try_rollback env host) (restored host) (try_rollback-seen env host) e
