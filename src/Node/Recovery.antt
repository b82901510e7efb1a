-- ===== src/Node/Recovery.antt =====
-- `RecoveryBackoff` of bv/src/linux_platform.rs, and `recover` of `Node` in bv/src/node.rs, which it
-- slows down. In one call, the node is started once and stopped once at most.
use blockvisor.Common.{
  ℕ, ◌+◌, ◌-◌, Bool, true, false, not, ◌&&◌, ◌||◌, Option, none, some, ltb, leb, if◌then◌else◌,
}
use blockvisor.Retry.{exp_backoff_timeout}
use blockvisor.NodeState.{
  VmState, VmStatus, NodeState, vm_running, vm_shutoff, vm_invalid, running, stopped, failed, busy,
}
use blockvisor.Node.{Node, Op, Start, Stop, ◌then◌, change, save_expected_status, start, stop}
pub mod Bounded
pub mod Idle
pub mod Weight

-- Instants are milliseconds.
pub record RecoveryBackoff : Type 0 where
  pub reconnect : ℕ  -- u32
  pub stop : ℕ  -- u32
  pub start : ℕ  -- u32
  pub vm : ℕ  -- u32
  pub backoff_time : Option ℕ

abbrev pub no_backoff : RecoveryBackoff
no_backoff = record { reconnect = 0; stop = 0; start = 0; vm = 0; backoff_time = none }

abbrev pub max_start_tries : ℕ
max_start_tries = 3

abbrev pub max_stop_tries : ℕ
max_stop_tries = 3

abbrev pub max_reconnect_tries : ℕ
max_reconnect_tries = 3

abbrev pub max_vm_tries : ℕ
max_vm_tries = 3

abbrev pub is_before : ℕ → Option ℕ → Bool
is_before now none = false
is_before now (some time) = ltb now time

unfoldable pub backoff : ℕ → RecoveryBackoff → Bool
backoff now b = is_before now b.backoff_time

abbrev pub update_backoff_time : ℕ → ℕ → ℕ → RecoveryBackoff → RecoveryBackoff
update_backoff_time now backoff_base_ms counter b = record b {
  backoff_time = some (now + exp_backoff_timeout backoff_base_ms counter);
}

-- Each counts a failure, and tells whether there were too many.
unfoldable pub start_failed : ℕ → RecoveryBackoff → RecoveryBackoff × Bool
start_failed now b = (
  record (update_backoff_time now 15000 b.start b) { start = b.start + 1 },
  leb max_start_tries (b.start + 1),
)

unfoldable pub stop_failed : ℕ → RecoveryBackoff → RecoveryBackoff × Bool
stop_failed now b = (
  record (update_backoff_time now 45000 b.stop b) { stop = b.stop + 1 },
  leb max_stop_tries (b.stop + 1),
)

unfoldable pub reconnect_failed : ℕ → RecoveryBackoff → RecoveryBackoff × Bool
reconnect_failed now b = (
  record (update_backoff_time now 5000 b.reconnect b) { reconnect = b.reconnect + 1 },
  leb max_reconnect_tries (b.reconnect + 1),
)

unfoldable pub vm_recovery_failed : ℕ → RecoveryBackoff → RecoveryBackoff × Bool
vm_recovery_failed now b =
    (record (update_backoff_time now 1000 b.vm b) { vm = b.vm + 1 }, leb max_vm_tries (b.vm + 1))

pub record Recovering : Type 0 where
  pub node : Node
  pub recovery_backoff : RecoveryBackoff

-- What the calls give, and what is seen of the machine and of the connection after them.
pub record Recovery : Type 0 where
  pub now : ℕ
  pub start : Start
  pub stop : Stop
  pub tests : Bool
  pub closed : Bool
  pub broken : Bool
  pub machine_recovers : Bool
  pub vm : VmState
  pub tests_again : Bool
  pub saves_failed : Bool

abbrev pub post_recovery : Node → Recovering
post_recovery node = record { node = node; recovery_backoff = no_backoff }

abbrev pub with_backoff : RecoveryBackoff → Node × Bool → Recovering × Bool
with_backoff b (node, success) = (record { node = node; recovery_backoff = b }, success)

-- A node for which there were too many failures is marked as failed.
abbrev pub give_up : Bool → Node → RecoveryBackoff × Bool → Recovering × Bool
give_up saves node (b, true) = with_backoff b (save_expected_status saves failed node)
give_up saves node (b, false) = (record { node = node; recovery_backoff = b }, true)

-- The failure of what was tried is counted; it is no error.
abbrev pub tried : Bool → Node × Bool → RecoveryBackoff × Bool → Recovering × Bool
tried saves (node, true) failure = (post_recovery node, true)
tried saves (node, false) failure = give_up saves node failure

unfoldable pub started_node_recovery : Recovery → Recovering → Recovering × Bool
unfolding start
started_node_recovery env r =
    tried env.saves_failed (start env.start r.node) (start_failed env.now r.recovery_backoff)

unfoldable pub restart : Recovery → Bool → Op
unfolding start stop
restart env force =
    change (λ (state : NodeState). record state { restarting = true })
    then stop env.stop force
    then start env.start

unfoldable pub recover_by_restart : Recovery → Recovering → Recovering × Bool
unfolding restart
recover_by_restart env r =
    tried env.saves_failed (restart env true r.node) (stop_failed env.now r.recovery_backoff)

abbrev pub restart_after : Recovery → Node → RecoveryBackoff × Bool → Recovering × Bool
restart_after env node (b, true) =
    recover_by_restart env (record { node = node; recovery_backoff = b })
restart_after env node (b, false) = (record { node = node; recovery_backoff = b }, true)

abbrev pub connection_seen : Recovery → Node → Node
connection_seen env node = record node {
  connection_closed = env.closed;
  connection_broken = env.broken;
}

abbrev pub machine_seen : Recovery → Node → Node
machine_seen env node = record node { vm = env.vm }

unfoldable pub node_connection_recovery : Recovery → Recovering → Recovering × Bool
unfolding started_node_recovery recover_by_restart
node_connection_recovery env r =
    let node = connection_seen env r.node in
    if env.tests
    then if env.closed
      then started_node_recovery env (record r { node = node })
      else (post_recovery node, true)
    else if env.machine_recovers && env.tests_again
    then (post_recovery (machine_seen env node), true)
    else restart_after env (machine_seen env node) (reconnect_failed env.now r.recovery_backoff)

unfoldable pub vm_recovery : Recovery → Recovering → Recovering × Bool
unfolding recover_by_restart
vm_recovery env r =
    let node = machine_seen env r.node in
    if env.machine_recovers
    then (post_recovery node, true)
    else restart_after env node (vm_recovery_failed env.now r.recovery_backoff)

abbrev pub recover_machine : Recovery → VmState → Recovering → Recovering × Bool
recover_machine env vm_shutoff r = started_node_recovery env r
recover_machine env vm_invalid r = vm_recovery env r
recover_machine env vm_running r = node_connection_recovery env r

-- `stop` was tried; a node that is restarting is started again.
abbrev pub recovered_stop : Recovery → RecoveryBackoff → Node × Bool → Recovering × Bool
recovered_stop env b (node, true) =
    if node.state.restarting
    then with_backoff no_backoff (start env.start node)
    else (post_recovery node, true)
recovered_stop env b (node, false) = give_up env.saves_failed node (stop_failed env.now b)

-- No node is expected to be busy: there the source does not go on.
unfoldable pub recover_expected : Recovery → VmStatus → Recovering → Recovering × Bool
unfolding started_node_recovery vm_recovery node_connection_recovery stop start
recover_expected env running r =
    if not r.node.state.details.initialized
    then started_node_recovery env r
    else recover_machine env r.node.vm r
recover_expected env stopped r =
    recovered_stop env r.recovery_backoff
      (stop env.stop (r.node.connection_closed || r.node.connection_broken) r.node)
recover_expected env failed r = (r, true)
recover_expected env busy r = (r, false)

unfoldable pub recover : Recovery → Recovering → Recovering × Bool
unfolding backoff recover_expected
recover env r =
    if backoff env.now r.recovery_backoff
    then (r, true)
    else recover_expected env r.node.state.expected_status r
