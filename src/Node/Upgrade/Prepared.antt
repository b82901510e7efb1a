-- ===== src/Node/Upgrade/Prepared.antt =====
-- What is there once an upgrade by bv/src/node.rs is prepared.
use blockvisor.Common.{
  ℕ, ◌≡◌, refl, ap, ◌∙◌, ◌≢◌, ◌⊎◌, inl, inr, Bool, true, false, Option, none, some, List, arith,
  any,
}
use blockvisor.NodeState.{StateBackup, NodeState, is_cpu_assignment}
use blockvisor.Node.{after, Node, ◌then◌, change}
use blockvisor.Node.Keeps.{mask, save_state-keeps, stop-keeps}
use blockvisor.Node.Attempt.{Host, Upgrade, on_node, with_node, assigned}
use blockvisor.Node.Rollback.{undo_cpus, undone_cpus}
use blockvisor.Node.Upgrade.{
  reset_upgrade, prepare, stop_running, stamp_and_activate, set_restarting, of_desired, activate,
}
use blockvisor.Node.Upgrade.Assigned.{find_cpus-none}
use blockvisor.Node.Upgrade.Decided.{Planned}
use blockvisor.Node.Upgrade.Undo.{Ledger, ledger}
use blockvisor.Node.Upgrade.Restored.{Seen, seen}

-- A host where the steps of the upgrade may be done, with the desired details, and with a backup of
-- what there was.
pub record Ready (was : Seen) (desired : StateBackup) (host : Host) : Type 0 where
  pub backup : StateBackup
  pub goes_on : ◌≡◌ {A = Ledger} (ledger host.node.state.upgrade_state) (some backup, (true, false))
  pub planned : Planned host
  pub same : ◌≡◌ {A = Seen} (mask backup, undone_cpus host) was
  pub given : mask host.node.state.details ≡ mask desired

abbrev pub is_active : Node → Bool
is_active node = node.state.upgrade_state.active

abbrev pub has_cpus : Node → Bool
has_cpus node = any is_cpu_assignment node.state.upgrade_state.steps

abbrev pub Begun : Type 0
Begun = StateBackup × (List ℕ × (Ledger × Bool))

abbrev pub begun : Node → Begun
begun node = (
  mask node.state.details,
  (node.state.assigned_cpus, (ledger node.state.upgrade_state, has_cpus node)),
)

pub stop_running-begun :
    (env : Upgrade) (runs : Bool) (host : Host)
    → begun (stop_running env runs (reset_upgrade host).node).0
      ≡ (mask host.node.state.details, (assigned host, ((none, (false, false)), false)))
unfolding stop_running ◌then◌
stop_running-begun env false host = refl
stop_running-begun env true host =
    ap (λ k. (k.0, (k.1.0, (ledger k.1.1, any is_cpu_assignment k.1.1.steps))))
      ((stop-keeps env.stop false).kept_by ((change set_restarting (reset_upgrade host).node).0))

abbrev Active : Type 0
Active = Ledger × (StateBackup × (List ℕ × Bool))

abbrev active_view : Node → Active
active_view node = (
  ledger node.state.upgrade_state,
  (mask node.state.details, (node.state.assigned_cpus, has_cpus node)),
)

activated :
    (env : Upgrade) (desired : NodeState) (stamp : Option ℕ) (node : Node)
    → active_view (stamp_and_activate env desired (some stamp) node).0 ≡ (
      (some node.state.details, (true, node.state.upgrade_state.need_rollback)),
      (mask (of_desired desired), (node.state.assigned_cpus, has_cpus node)),
    )
unfolding ◌then◌ activate
activated env desired stamp node =
    ap (λ k. (ledger k.1.1, (k.0, (k.1.0, any is_cpu_assignment k.1.1.steps))))
      ((save_state-keeps env.saves_prepared).kept_by ((change (activate desired stamp) node).0))

-- The preparation was successful, or the upgrade is active after it, its stamp being read.
abbrev pub Reached : Option (Option ℕ) → Node × Bool → Type 0
Reached stamp r = (r.1 ≡ true) ⊎ ((stamp ≢ none) × (is_active r.0 ≡ true))

prepared-view :
    (env : Upgrade) (desired : NodeState) (stamp : Option (Option ℕ)) (r : Node × Bool)
    (details : StateBackup) (cpus : List ℕ)
    → begun r.0 ≡ (details, (cpus, ((none, (false, false)), false)))
    → Reached stamp (after (stamp_and_activate env desired stamp) r)
    → active_view (after (stamp_and_activate env desired stamp) r).0
      ≡ ((some r.0.state.details, (true, false)), (mask (of_desired desired), (cpus, false)))
unfolding ◌then◌
prepared-view env desired none (node, true) details cpus b (inl e) = absurd (ground arith)
prepared-view env desired none (node, false) details cpus b (inl e) = absurd (ground arith)
prepared-view env desired none r details cpus b (inr (some_stamp, _)) = absurd (some_stamp refl)
prepared-view env desired (some stamp) (node, false) details cpus b (inl e) = absurd (ground arith)
prepared-view env desired (some stamp) (node, false) details cpus b (inr (_, e)) =
    absurd (ground (arith, e, ap (λ v. v.1.1.0.1.0) b))
prepared-view env desired (some stamp) (node, true) details cpus b reached =
    activated env desired stamp node
    ∙ ap
        (λ v. (
          (some node.state.details, (true, v.1.1.0.1.1)),
          (mask (of_desired desired), (v.1.0, v.1.1.1)),
        ))
        b

pub with_node-parts :
    (host : Host) (r : Node × Bool) → with_node host r ≡ (record host { node = r.0 }, r.1)
with_node-parts host (node, success) = refl

-- What the node is, told from its steps.
ready :
    (host : Host) (was : Seen) (desired : StateBackup) (backup : StateBackup) (cpus : List ℕ)
    → active_view host.node ≡ ((some backup, (true, false)), (mask desired, (cpus, false)))
    → ◌≡◌ {A = Seen} (mask backup, (cpus, host.registry)) was
    → Ready was desired host
ready host was desired backup cpus h same =
    let steps = host.node.state.upgrade_state.steps in
    let no_cpus : has_cpus host.node ≡ false = ap (λ v. v.1.1.1) h in
    record {
      backup = backup;
      goes_on = ap (λ v. v.0) h;
      planned = inl no_cpus;
      same =
          ap (λ found. (mask backup, undo_cpus found (assigned host) host.registry))
            (find_cpus-none steps no_cpus)
          ∙ ap (λ v. (mask backup, (v.1.1.0, host.registry))) h
          ∙ same;
      given = ap (λ v. v.1.0) h;
    }

pub prepare-Ready :
    (env : Upgrade) (desired : NodeState) (runs : Bool) (host : Host)
    → Reached env.stamp_before (prepare env desired runs (reset_upgrade host).node)
    → Ready
        (seen host)
        (of_desired desired)
        (on_node (prepare env desired runs) (reset_upgrade host)).0
unfolding prepare ◌then◌
prepare-Ready env desired runs host reached =
    let node = (reset_upgrade host).node in
    let first = stop_running env runs node in
    let parts = with_node-parts (reset_upgrade host) (prepare env desired runs node) in
    let begins = stop_running-begun env runs host in
    ready (on_node (prepare env desired runs) (reset_upgrade host)).0 (seen host)
      (of_desired desired) first.0.state.details (assigned host)
      (ap (λ r. active_view r.0.node) parts
        ∙ prepared-view env desired env.stamp_before first (mask host.node.state.details)
            (assigned host) begins reached)
      (ap (λ r. (mask first.0.state.details, (assigned host, r.0.registry))) parts
        ∙ ap (λ b. (b.0, (assigned host, host.registry))) begins)

-- The same, told from the host.
pub on_node-Reached :
    (stamp : Option (Option ℕ)) (host : Host) (r : Node × Bool)
    → ((with_node host r).1 ≡ true)
      ⊎ ((stamp ≢ none) × (is_active (with_node host r).0.node ≡ true))
    → Reached stamp r
on_node-Reached stamp host (node, success) reached = reached
