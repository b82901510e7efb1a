-- ===== src/Node/Upgrade/Upgraded.antt =====
-- What a node has once its upgrade by bv/src/node.rs was successful.
use blockvisor.Common.{◌≡◌, subst, false}
use blockvisor.NodeState.{NodeState}
use blockvisor.Node.Attempt.{Host, Upgrade}
use blockvisor.Node.Rollback.{Outcome, Rollback, upgraded}
use blockvisor.Node.Upgrade.{upgrade}
use blockvisor.Node.Upgrade.Finished.{Done}
use blockvisor.Node.Upgrade.Begun.{upgrade-Began}
use blockvisor.Node.Upgrade.Judged.{Right}

-- An upgrade that was not interrupted before, and that is successful, gives the node the desired
-- details, but for whether it is initialized, and as many cores as the desired configuration of the
-- machine asks for. Of each core, the node and the registry of the host have together what they had.
pub upgrade-upgraded :
    (env : Upgrade) (back : Rollback) (desired : NodeState) (host host' : Host)
    → host.node.state.upgrade_state.active ≡ false
    → upgrade env back desired host ≡ (host', upgraded)
    → Done desired host host'
upgrade-upgraded env back desired host host' fresh h =
    subst (λ (end : Host × Outcome). Right desired host end.1 end.0) h
      (upgrade-Began desired host env back fresh).right
