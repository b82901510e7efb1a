-- ===== src/Node/Recovery/Idle.antt =====
-- Why no node that bv/src/node.rs recovers is expected to be busy.
use blockvisor.Common.{refl, Bool, true, false, not, ◌&&◌, ◌||◌, if◌then◌else◌}
use blockvisor.NodeState.{
  VmState, VmStatus, vm_running, vm_shutoff, vm_invalid, running, stopped, failed, busy,
}
use blockvisor.Node.{Node, ◌then◌, save_expected_status, start, stop}
use blockvisor.Node.Preserves.{◌with_then◌}
use blockvisor.Node.Recovery.{
  RecoveryBackoff, Recovering, Recovery, no_backoff, backoff, start_failed, stop_failed,
  reconnect_failed, vm_recovery_failed, post_recovery, with_backoff, give_up, tried,
  started_node_recovery, restart, recover_by_restart, restart_after, connection_seen, machine_seen,
  node_connection_recovery, vm_recovery, recover_machine, recovered_stop, recover_expected, recover,
}
use blockvisor.Node.Idle.{IsIdle, Idles, idles, save_expected_status-Idles, start-Idles, stop-Idles}

with_backoff-IsIdle :
    (b : RecoveryBackoff) (r : Node × Bool) → IsIdle r.0 → IsIdle (with_backoff b r).0.node
with_backoff-IsIdle b (node, success) i = i

give_up-IsIdle :
    (saves : Bool) (node : Node) (failure : RecoveryBackoff × Bool)
    → IsIdle node
    → IsIdle (give_up saves node failure).0.node
give_up-IsIdle saves node (b, true) i =
    with_backoff-IsIdle b (save_expected_status saves failed node)
      ((save_expected_status-Idles saves failed refl).preserved node i)
give_up-IsIdle saves node (b, false) i = i

tried-IsIdle :
    (saves : Bool) (r : Node × Bool) (failure : RecoveryBackoff × Bool)
    → IsIdle r.0
    → IsIdle (tried saves r failure).0.node
tried-IsIdle saves (node, true) failure i = i
tried-IsIdle saves (node, false) failure i = give_up-IsIdle saves node failure i

started-IsIdle :
    (env : Recovery) (r : Recovering) → IsIdle r.node → IsIdle (started_node_recovery env r).0.node
unfolding started_node_recovery
started-IsIdle env r i =
    tried-IsIdle env.saves_failed (start env.start r.node) (start_failed env.now r.recovery_backoff)
      ((start-Idles env.start).preserved r.node i)

restart-Idles : (env : Recovery) (force : Bool) → Idles (restart env force)
unfolding restart
restart-Idles env force =
    idles (λ node i. i) with_then stop-Idles env.stop force with_then start-Idles env.start

restart_after-IsIdle :
    (env : Recovery) (node : Node) (failure : RecoveryBackoff × Bool)
    → IsIdle node
    → IsIdle (restart_after env node failure).0.node
unfolding recover_by_restart
restart_after-IsIdle env node (b, true) i =
    tried-IsIdle env.saves_failed (restart env true node) (stop_failed env.now b)
      ((restart-Idles env true).preserved node i)
restart_after-IsIdle env node (b, false) i = i

either-IsIdle :
    (t : Bool) (x y : Recovering × Bool)
    → IsIdle x.0.node
    → IsIdle y.0.node
    → IsIdle (if t then x else y).0.node
either-IsIdle true x y h k = h
either-IsIdle false x y h k = k

connection-IsIdle :
    (env : Recovery) (r : Recovering)
    → IsIdle r.node
    → IsIdle (node_connection_recovery env r).0.node
unfolding node_connection_recovery
connection-IsIdle env r i =
    let node = connection_seen env r.node in
    let closed = started_node_recovery env (record r { node = node }) in
    let open_one : Recovering × Bool = (post_recovery node, true) in
    let again : Recovering × Bool = (post_recovery (machine_seen env node), true) in
    let failure = reconnect_failed env.now r.recovery_backoff in
    let restarts = restart_after env (machine_seen env node) failure in
    either-IsIdle env.tests (if env.closed then closed else open_one)
      (if env.machine_recovers && env.tests_again then again else restarts)
      (either-IsIdle env.closed closed open_one (started-IsIdle env (record r { node = node }) i) i)
      (either-IsIdle (env.machine_recovers && env.tests_again) again restarts i
        (restart_after-IsIdle env (machine_seen env node) failure i))

vm-IsIdle : (env : Recovery) (r : Recovering) → IsIdle r.node → IsIdle (vm_recovery env r).0.node
unfolding vm_recovery
vm-IsIdle env r i =
    let node = machine_seen env r.node in
    let failure = vm_recovery_failed env.now r.recovery_backoff in
    either-IsIdle env.machine_recovers (post_recovery node, true) (restart_after env node failure) i
      (restart_after-IsIdle env node failure i)

recovered_stop-IsIdle :
    (env : Recovery) (b : RecoveryBackoff) (r : Node × Bool)
    → IsIdle r.0
    → IsIdle (recovered_stop env b r).0.node
recovered_stop-IsIdle env b (node, true) i =
    either-IsIdle node.state.restarting (with_backoff no_backoff (start env.start node))
      (post_recovery node, true)
      (with_backoff-IsIdle no_backoff (start env.start node)
        ((start-Idles env.start).preserved node i))
      i
recovered_stop-IsIdle env b (node, false) i =
    give_up-IsIdle env.saves_failed node (stop_failed env.now b) i

machine-IsIdle :
    (env : Recovery) (vm : VmState) (r : Recovering)
    → IsIdle r.node
    → IsIdle (recover_machine env vm r).0.node
machine-IsIdle env vm_shutoff r i = started-IsIdle env r i
machine-IsIdle env vm_invalid r i = vm-IsIdle env r i
machine-IsIdle env vm_running r i = connection-IsIdle env r i

expected-IsIdle :
    (env : Recovery) (s : VmStatus) (r : Recovering)
    → IsIdle r.node
    → IsIdle (recover_expected env s r).0.node
unfolding recover_expected
expected-IsIdle env running r i =
    either-IsIdle (not r.node.state.details.initialized) (started_node_recovery env r)
      (recover_machine env r.node.vm r) (started-IsIdle env r i) (machine-IsIdle env r.node.vm r i)
expected-IsIdle env stopped r i =
    let force = r.node.connection_closed || r.node.connection_broken in
    recovered_stop-IsIdle env r.recovery_backoff (stop env.stop force r.node)
      ((stop-Idles env.stop force).preserved r.node i)
expected-IsIdle env failed r i = i
expected-IsIdle env busy r i = i

pub recover-IsIdle :
    (env : Recovery) (r : Recovering) → IsIdle r.node → IsIdle (recover env r).0.node
unfolding recover
recover-IsIdle env r i =
    either-IsIdle (backoff env.now r.recovery_backoff) (r, true)
      (recover_expected env r.node.state.expected_status r) i
      (expected-IsIdle env r.node.state.expected_status r i)
