-- ===== src/Node/Upgrade/RolledBack.antt =====
-- What a node has once its upgrade by bv/src/node.rs was rolled back.
use blockvisor.Common.{◌≡◌, subst, false}
use blockvisor.NodeState.{NodeState}
use blockvisor.Node.Attempt.{Host, Upgrade}
use blockvisor.Node.Rollback.{Outcome, Rollback, rolled_back}
use blockvisor.Node.Upgrade.{upgrade}
use blockvisor.Node.Upgrade.Restored.{seen}
use blockvisor.Node.Upgrade.Begun.{upgrade-Began}
use blockvisor.Node.Upgrade.Judged.{Right}

-- An upgrade that was not interrupted before, and that ends as rolled back, leaves the node with the
-- details it had, but for whether it is initialized, and with the cores it had, in their order. The
-- registry of the host's cores is what it was.
pub upgrade-rolled_back :
    (env : Upgrade) (back : Rollback) (desired : NodeState) (host host' : Host)
    → host.node.state.upgrade_state.active ≡ false
    → upgrade env back desired host ≡ (host', rolled_back)
    → seen host' ≡ seen host
upgrade-rolled_back env back desired host host' fresh h =
    subst (λ (end : Host × Outcome). Right desired host end.1 end.0) h
      (upgrade-Began desired host env back fresh).right
