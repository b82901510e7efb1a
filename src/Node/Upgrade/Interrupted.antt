-- ===== src/Node/Upgrade/Interrupted.antt =====
-- An upgrade by bv/src/node.rs that is interrupted by errors, and called again.
use blockvisor.Common.{◌+◌, ◌≡◌, sym, ap, subst, ◌∙◌, ◌≢◌, inl, inr, true, false, none, length, any}
use blockvisor.NodeState.{NodeState, find_cpus, is_cpu_assignment}
use blockvisor.Node.{Node}
use blockvisor.Node.Keeps.{kept, mask}
use blockvisor.Node.Attempt.{Host, Upgrade}
use blockvisor.Node.Rollback.{
  Outcome, Rollback, upgraded, rolled_back, upgrade_failure, blocking_job_running, internal,
  undo_cpus,
}
use blockvisor.Node.Upgrade.{upgrade}
use blockvisor.Node.Upgrade.Undo.{ledger}
use blockvisor.Node.Upgrade.Decided.{DecidedPlan, Planned}
use blockvisor.Node.Upgrade.Prepared.{is_active}
use blockvisor.Node.Upgrade.Judged.{Right, Goes, Judged, Forward, Backward}
use blockvisor.Node.Upgrade.Undo.{ledger}
use blockvisor.CpuRegistry.Owners.{count}
use blockvisor.Node.Upgrade.Begun.{upgrade-Began, upgrade-Judged}

module _ (desired : NodeState) (before host : Host) (node : Node)
    (k : kept node ≡ kept host.node) where
  abbrev moved : Host
  moved = record host { node = node }

  moved-Planned : Planned host → Planned moved
  moved-Planned (inl none_yet) = inl (ap (λ v. any is_cpu_assignment v.1.1.steps) k ∙ none_yet)
  moved-Planned (inr decided) = inr (
      subst DecidedPlan (sym (ap (λ v. (v.0, (v.1.0, (ledger v.1.1, find_cpus v.1.1.steps)))) k))
        decided)

  moved-Forward : Forward desired before host → Forward desired before moved
  moved-Forward ready = record {
    backup = ready.backup;
    goes_on = ap (λ v. ledger v.1.1) k ∙ ready.goes_on;
    planned = moved-Planned ready.planned;
    same =
        ap (λ v. (mask ready.backup, undo_cpus (find_cpus v.1.1.steps) v.1.0 host.registry)) k
        ∙ ready.same;
    given = ap (λ v. v.0) k ∙ ready.given;
  }

  moved-Backward : Backward desired before host → Backward desired before moved
  moved-Backward backward = record {
    asked = ap (λ v. v.1.1.need_rollback) k ∙ backward.asked;
    restores =
        ap (λ v. (v.0, undo_cpus (find_cpus v.1.1.steps) v.1.0 host.registry)) k
        ∙ backward.restores;
  }

  moved-Goes : Goes desired before host → Goes desired before moved
  moved-Goes (inl ready) = inl (moved-Forward ready)
  moved-Goes (inr backward) = inr (moved-Backward backward)

  moved-Right : (o : Outcome) → Right desired before o host → Right desired before o moved
  moved-Right upgraded (details, (size, cores)) = (
    ap (λ v. v.0) k ∙ details,
    (
      ap (λ v. length v.1.0) k ∙ size,
      λ c. ap (λ v. count c host.registry + count c v.1.0) k ∙ cores c,
    ),
  )
  moved-Right rolled_back same = ap (λ v. (v.0, (v.1.0, host.registry))) k ∙ same
  moved-Right upgrade_failure r = tt
  moved-Right blocking_job_running r = tt
  moved-Right internal r = tt

  moved-Judged : (o : Outcome) → Judged desired before (host, o) → Judged desired before (moved, o)
  moved-Judged o judged = record {
    right = moved-Right o judged.right;
    going = λ active. moved-Goes (judged.going (sym (ap (λ v. v.1.1.active) k) ∙ active));
  }

-- An upgrade that begins, and is called again as long as it is active. What else is done to the node
-- meanwhile leaves the details, the cores and the upgrade as they are, as starting, stopping and
-- recovering it do.
pub data Upgrading (desired : NodeState) (before : Host) : Host → Outcome → Type 0 where
  begins :
      (env : Upgrade) (back : Rollback)
      → is_active before.node ≡ false
      → env.stamp_before ≢ none
      → Upgrading desired before
          (upgrade env back desired before).0
          (upgrade env back desired before).1
  again :
      {host : Host} {o : Outcome} (env : Upgrade) (back : Rollback) (other : NodeState)
      → Upgrading desired before host o
      → is_active host.node ≡ true
      → Upgrading desired before (upgrade env back other host).0 (upgrade env back other host).1
  meanwhile :
      {host : Host} {o : Outcome} (node : Node)
      → Upgrading desired before host o
      → kept node ≡ kept host.node
      → Upgrading desired before (record host { node = node }) o

Upgrading-Judged :
    (desired : NodeState) (before host : Host) (o : Outcome)
    → Upgrading desired before host o
    → Judged desired before (host, o)
Upgrading-Judged desired before host o (begins env back fresh readable) =
    let began = upgrade-Began desired before env back fresh in
    record { right = began.right; going = began.going readable }
Upgrading-Judged desired before _ _ (again {host} {o} env back other path active) =
    let judged = Upgrading-Judged desired before host o path in
    upgrade-Judged desired before env back other host active (judged.going active)
Upgrading-Judged desired before _ o (meanwhile {host} node path k) =
    moved-Judged desired before host node k o (Upgrading-Judged desired before host o path)

-- However often an upgrade whose stamp of the data was read is interrupted by errors and called again,
-- with the node started, stopped and recovered meanwhile: when it ends as rolled back, the node has
-- the details and the cores that it had before the upgrade began, and the registry its cores; and
-- when it ends as upgraded, the node has the desired details and number of cores, and no core is lost
-- or doubled. Whether the node is initialized is left out.
pub Upgrading-Right :
    (desired : NodeState) (before host : Host) (o : Outcome)
    → Upgrading desired before host o
    → Right desired before o host
Upgrading-Right desired before host o path = (Upgrading-Judged desired before host o path).right
