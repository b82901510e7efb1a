-- ===== src/Node.antt =====
-- `Node` of bv/src/node.rs: how a node is started and stopped. Whether a call of the machine, of the
-- engine or of babel is successful, and whether the state can be saved, is given to each operation,
-- which ends at the first call that fails.
use blockvisor.Common.{ℕ, Bool, true, false, not, ◌&&◌, ◌||◌, none, some, if◌then◌else◌}
use blockvisor.NodeState.{
  VmState, VmStatus, NodeState, vm_running, vm_shutoff, vm_invalid, running, stopped, failed, busy,
}
pub mod Attempt
pub mod Idle
pub mod Keeps
pub mod Lifecycle
pub mod Preserves
pub mod Recovery
pub mod Rollback
pub mod Update
pub mod Upgrade

-- A node with its machine, its connection to babel, and the file of its state.
pub record Node : Type 0 where
  pub state : NodeState
  pub saved : NodeState
  pub vm : VmState
  pub connection_closed : Bool
  pub connection_broken : Bool

abbrev pub same_status : VmStatus → VmStatus → Bool
same_status running running = true
same_status stopped stopped = true
same_status failed failed = true
same_status busy busy = true
same_status _ _ = false

abbrev pub machine_status : VmState → VmStatus
machine_status vm_running = running
machine_status vm_shutoff = stopped
machine_status vm_invalid = failed

abbrev pub checked_status : Node → VmStatus → VmStatus
checked_status node running =
    if node.connection_closed || node.connection_broken || not node.state.details.initialized
    then failed
    else running
checked_status node other = other

unfoldable pub status : Node → VmStatus
status node =
    if same_status (machine_status node.vm) node.state.expected_status
    then checked_status node (machine_status node.vm)
    else failed

-- An operation: what there is afterwards, and whether it was successful.
abbrev pub OpOf : Type 0 → Type 0
OpOf A = A → A × Bool

abbrev pub Op : Type 0
Op = OpOf Node

abbrev pub after : {A : Type 0} → OpOf A → A × Bool → A × Bool
after op (a, true) = op a
after op (a, false) = (a, false)

infixr 20 ◌then◌
unfoldable pub ◌then◌ : {A : Type 0} → OpOf A → OpOf A → OpOf A
(first then second) a = after second (first a)

unfoldable pub choose : {A : Type 0} → (A → Bool) → OpOf A → OpOf A → OpOf A
choose test first second a = if test a then first a else second a

-- A call that changes nothing of what is kept.
abbrev pub calls : {A : Type 0} → Bool → A → A × Bool
calls success a = (a, success)

abbrev pub save_state : Bool → Op
save_state true node = (record node { saved = node.state }, true)
save_state false node = (node, false)

abbrev pub change : (NodeState → NodeState) → Op
change f node = (record node { state = f node.state }, true)

abbrev pub save_expected_status : Bool → VmStatus → Op
save_expected_status saves s =
    change (λ (state : NodeState). record state { expected_status = s }) then save_state saves

pub record Start : Type 0 where
  pub saves_status : Bool
  pub engine_starts : Bool
  pub machine_starts : Bool
  pub connects : Bool
  pub sets_up : Bool
  pub inits : Bool
  pub saves_started : Bool
  pub now : ℕ

abbrev pub start_machine_in : Bool → VmState → Op
start_machine_in success vm_shutoff node =
    if success then (record node { vm = vm_running }, true) else (node, false)
start_machine_in success vm_running node = (node, true)
start_machine_in success vm_invalid node = (node, true)

abbrev pub start_machine : Bool → Op
start_machine success node = start_machine_in success node.vm node

abbrev pub connect : Bool → Op
connect true node = (record node { connection_closed = false; connection_broken = false }, true)
connect false node = (node, false)

abbrev pub set_initialized : NodeState → NodeState
set_initialized state = record state { details = record state.details { initialized = true } }

abbrev pub init_unless : Bool → Bool → Op
init_unless true inits node = (node, true)
init_unless false inits node = if inits then change set_initialized node else (node, false)

abbrev pub init : Bool → Op
init inits node = init_unless node.state.details.initialized inits node

abbrev pub set_started : ℕ → NodeState → NodeState
set_started now state = record state { started_at = some now; restarting = false }

-- What follows where the node does not run.
unfoldable pub start_stopped : Start → Op
start_stopped env =
    calls env.engine_starts
    then start_machine env.machine_starts
    then connect env.connects
    then calls env.sets_up
    then init env.inits
    then change (set_started env.now)
    then save_state env.saves_started

unfoldable pub start_as : Start → VmStatus → Op
unfolding start_stopped
start_as env running = save_expected_status env.saves_status running
start_as env s = save_expected_status env.saves_status running then start_stopped env

-- A node that was not stopped properly is not started.
unfoldable pub start : Start → Op
unfolding status start_as
start env =
    choose
      (λ node. same_status (status node) failed && same_status node.state.expected_status stopped)
      (calls false) (λ node. start_as env (status node) node)

pub record Stop : Type 0 where
  pub saves_status : Bool
  pub babel_stops : Bool
  pub saves_stopped : Bool
  pub shuts_down : Bool
  pub forced_shut_down : Bool
  pub in_time : Bool
  pub engine_stops : Bool

abbrev pub close_connection : Op
close_connection node = (record node { connection_closed = true }, true)

-- `shutdown`, or else `force_shutdown`, and then the wait until the machine is off.
unfoldable pub switch_off : Stop → Op
switch_off env =
    choose (λ node. (env.shuts_down || env.forced_shut_down) && env.in_time)
      (λ node. (record node { vm = vm_shutoff }, true)) (calls false)

abbrev pub stop_machine_in : Stop → VmState → Op
stop_machine_in env vm_shutoff node = (node, true)
stop_machine_in env vm node = switch_off env node

abbrev pub stop_machine : Stop → Op
stop_machine env node = stop_machine_in env node.vm node

unfoldable pub stop_running : Stop → Bool → Op
unfolding switch_off
stop_running env force =
    calls (env.babel_stops || force)
    then close_connection
    then change (λ (state : NodeState). record state { started_at = none })
    then save_state env.saves_stopped
    then stop_machine env
    then calls env.engine_stops

unfoldable pub stop : Stop → Bool → Op
unfolding status stop_running
stop env force =
    save_expected_status env.saves_status stopped
    then choose (λ node. same_status (status node) stopped) (calls true) (stop_running env force)
