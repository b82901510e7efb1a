-- ===== src/Node/Upgrade/Finished.antt =====
-- What a node of bv/src/node.rs has once the steps of its upgrade were done.
use blockvisor.Common.{
  ℕ, ◌+◌, ◌≡◌, refl, ap, ◌∙◌, Bool, true, false, List, arith, if◌then◌else◌, length, drop,
  take-append-drop, take,
}
use blockvisor.CpuRegistry.{release}
use blockvisor.CpuRegistry.Owners.{count, count-append}
use blockvisor.NodeState.{
  CpuAssignmentUpdate, NodeState, no_update, acquired_cpus, released_cpus, find_cpus,
}
use blockvisor.Node.{◌then◌, save_state, change}
use blockvisor.Node.Keeps.{mask, save_state-keeps}
use blockvisor.Node.Attempt.{Host, on_node, assigned, wanted}
use blockvisor.Node.Rollback.{end_upgrade, undo_cpus, undone_cpus}
use blockvisor.Node.Upgrade.{of_desired, finish_upgrade, release_step}
use blockvisor.Node.Upgrade.Undo.{whole}
use blockvisor.Node.Upgrade.Prepared.{Ready, is_active}
use blockvisor.Node.Upgrade.Restored.{seen, kept-node_view, on_node-seen}

release_step-count :
    (c : ℕ) (update : CpuAssignmentUpdate) (cpus registry : List ℕ)
    → count c (release_step update registry) + count c cpus
      ≡ count c (undo_cpus update cpus registry).1 + count c (undo_cpus update cpus registry).0
unfolding release
release_step-count c no_update cpus registry = refl
release_step-count c (acquired_cpus n) cpus registry = omega (
  arith,
  count-append c registry (drop n cpus),
  count-append c (take n cpus) (drop n cpus),
  ap (count c) (take-append-drop n cpus),
)
release_step-count c (released_cpus released) cpus registry =
    omega (arith, count-append c registry released, count-append c cpus released)

-- What the host has of a core: free, or the node's.
abbrev pub cores : ℕ → Host → ℕ
cores c host = count c host.registry + count c (assigned host)

pub finish_upgrade-seen :
    (saves : Bool) (host : Host)
    → seen (finish_upgrade saves host).0 ≡ (
      mask host.node.state.details,
      (assigned host, release_step (find_cpus host.node.state.upgrade_state.steps) host.registry),
    )
unfolding finish_upgrade ◌then◌
finish_upgrade-seen saves host =
    let registry = release_step (find_cpus host.node.state.upgrade_state.steps) host.registry in
    (on_node-seen (kept-node_view (save_state-keeps saves))).kept_by
      ((on_node (change end_upgrade) (record host { registry = registry })).0)

-- The node has what was desired, and no core of the host is lost or doubled.
abbrev pub Done : NodeState → Host → Host → Type 0
Done desired before host =
    (mask host.node.state.details ≡ mask desired.details)
    × ((length (assigned host) ≡ desired.details.vm_config.vcpu_count)
        × ((c : ℕ) → cores c host ≡ cores c before))

pub finish_upgrade-Done :
    (saves : Bool) (desired : NodeState) (before next tried : Host)
    → Ready (seen before) (of_desired desired) next
    → whole tried ≡ whole next
    → length (assigned tried) ≡ wanted next
    → Done desired before (finish_upgrade saves tried).0
finish_upgrade-Done saves desired before next tried ready same size =
    let ends = finish_upgrade-seen saves tried in
    let cpus = find_cpus tried.node.state.upgrade_state.steps in
    let undone : undone_cpus tried ≡ (assigned before, before.registry) =
      ap (λ w. w.1.1) same ∙ ap (λ s. s.1) ready.same in
    (
      ap (λ s. s.0) ends ∙ ap (λ w. w.0) same ∙ ready.given,
      (
        ap (λ s. length s.1.0) ends ∙ size ∙ ap (λ d. d.vm_config.vcpu_count) ready.given,
        λ c.
            ap (λ s. count c s.1.1 + count c s.1.0) ends
            ∙ release_step-count c cpus (assigned tried) tried.registry
            ∙ ap (λ u. count c u.1 + count c u.0) undone,
      ),
    )

-- A save leaves an upgrade that has ended so.
pub ended-inactive :
    (saves : Bool) (host : Host)
    → is_active (on_node (change end_upgrade then save_state saves) host).0.node ≡ false
unfolding ◌then◌
ended-inactive true host = refl
ended-inactive false host = refl

pub finish_upgrade-inactive :
    (saves : Bool) (host : Host) → is_active (finish_upgrade saves host).0.node ≡ false
unfolding finish_upgrade
finish_upgrade-inactive saves host = ended-inactive saves (record host {
  registry = release_step (find_cpus host.node.state.upgrade_state.steps) host.registry;
})
