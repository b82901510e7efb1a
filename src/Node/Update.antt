-- ===== src/Node/Update.antt =====
-- `update` of `Node` in bv/src/node.rs: a new configuration for a node that there is.
use blockvisor.Common.{
  [], ◌-◌, Bool, true, false, not, Option, none, some, List, ◌∷◌, if◌then◌else◌, is_empty,
}
use Prim.Native.String.{String}
use blockvisor.Common.Assoc.{insert}
use blockvisor.NodeState.{VmStatus, StateBackup, NodeState, FirewallConfig, running, failed}
use blockvisor.Node.{Node, Op, ◌then◌, calls, save_state, change, status, set_initialized}
pub mod Skipped

pub record ConfigUpdate : Type 0 where
  pub config_id : String
  pub new_org_id : Option String
  pub new_org_name : Option String
  pub new_display_name : Option String
  pub new_values : List (String × String)
  pub new_firewall : Option FirewallConfig

-- Which calls are successful; `none` where the jobs can not be read.
pub record Update : Type 0 where
  pub blocking_job : Option Bool
  pub applies_firewall : Bool
  pub saves_config : Bool
  pub updates_info : Bool
  pub updates_plugin : Bool
  pub sets_up : Bool
  pub reloads_config : Bool
  pub saves_initialized : Bool

pub data UpdateOutcome : Type 0 where
  updated : UpdateOutcome
  blocked : UpdateOutcome  -- BlockingJobRunning
  not_updated : UpdateOutcome

abbrev pub or_old : {A : Type 0} → Option A → A → A
or_old none old = old
or_old (some new) old = new

unfoldable pub insert_values :
    List (String × String) → List (String × String) → List (String × String)
unfolding insert
insert_values [] properties = properties
insert_values ((key, value) ∷ values) properties =
    insert_values values (insert key value properties)

abbrev pub set_details : (StateBackup → StateBackup) → NodeState → NodeState
set_details f state = record state { details = f state.details }

abbrev pub apply_config : ConfigUpdate → StateBackup → StateBackup
apply_config u details = record details {
  image = record details.image { config_id = u.config_id };
  display_name = or_old u.new_display_name details.display_name;
  org_id = or_old u.new_org_id details.org_id;
  org_name = or_old u.new_org_name details.org_name;
  properties = insert_values u.new_values details.properties;
}

-- A firewall that can not be applied leaves the node to be expected to have failed.
abbrev pub apply_firewall : Update → Option FirewallConfig → Op
apply_firewall env none = save_state env.saves_config
apply_firewall env (some firewall) =
    change (set_details (λ details. record details { firewall = firewall }))
    then change (λ (state : NodeState).
      if env.applies_firewall then state else record state { expected_status = failed })
    then save_state env.saves_config
    then calls env.applies_firewall

-- A node that runs is set up with the new values.
abbrev pub set_up_running : Update → VmStatus → Op
set_up_running env running = calls env.sets_up then calls env.reloads_config
set_up_running env s = calls true

unfoldable pub apply_values : Update → VmStatus → Op
apply_values env s =
    calls env.updates_info
    then calls env.updates_plugin
    then set_up_running env s
    then change set_initialized
    then save_state env.saves_initialized

abbrev pub has_values : ConfigUpdate → Bool
has_values u = not (is_empty u.new_values)

abbrev pub forget_initialized : Bool → NodeState → NodeState
forget_initialized true state =
    set_details (λ (details : StateBackup). record details { initialized = false }) state
forget_initialized false state = state

unfoldable pub apply_update : Update → ConfigUpdate → VmStatus → Op
unfolding apply_values insert_values
apply_update env u s =
    change (forget_initialized (has_values u))
    then change (set_details (apply_config u))
    then apply_firewall env u.new_firewall
    then (if has_values u then apply_values env s else calls true)

abbrev pub as_outcome : Node × Bool → Node × UpdateOutcome
as_outcome (node, true) = (node, updated)
as_outcome (node, false) = (node, not_updated)

-- Whether a job keeps a node that runs from new values.
abbrev pub is_blocked : Update → ConfigUpdate → VmStatus → Option Bool
is_blocked env u running = if has_values u then env.blocking_job else some false
is_blocked env u s = some false

unfoldable pub update_unless :
    Update → ConfigUpdate → VmStatus → Option Bool → Node → Node × UpdateOutcome
unfolding apply_update
update_unless env u s none node = (node, not_updated)
update_unless env u s (some true) node = (node, blocked)
update_unless env u s (some false) node = as_outcome (apply_update env u s node)

unfoldable pub update_as : Update → ConfigUpdate → VmStatus → Node → Node × UpdateOutcome
unfolding update_unless
update_as env u failed node = (node, not_updated)
update_as env u s node = update_unless env u s (is_blocked env u s) node

unfoldable pub update : Update → ConfigUpdate → Node → Node × UpdateOutcome
unfolding status update_as
update env u node = update_as env u (status node) node
