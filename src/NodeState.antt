-- ===== src/NodeState.antt =====
-- bv/src/node_state.rs: what is kept of a node, and of its upgrade.
use blockvisor.Common.{ℕ, Bool, true, false, Option, none, List, [], ◌∷◌, ◌++◌, if◌then◌else◌, any}
use Prim.Native.String.{String}
use blockvisor.Firewall.{Action, Rule}

pub data VmState : Type 0 where
  vm_running : VmState
  vm_shutoff : VmState
  vm_invalid : VmState

pub data VmStatus : Type 0 where
  running : VmStatus
  stopped : VmStatus
  failed : VmStatus
  busy : VmStatus

-- `Config` of bv/src/firewall.rs.
pub record FirewallConfig : Type 0 where
  pub default_in : Action
  pub default_out : Action
  pub rules : List Rule

pub record NodeImage : Type 0 where
  pub id : String
  pub version : String
  pub config_id : String
  pub archive_id : String
  pub store_key : String
  pub uri : String
  pub min_babel_version : String

-- The configuration of RAM disks is passed on as a text.
pub record VmConfig : Type 0 where
  pub vcpu_count : ℕ  -- usize
  pub mem_size_mb : ℕ  -- u64
  pub disk_size_gb : ℕ  -- u64
  pub ramdisks : List String

pub record StateBackup : Type 0 where
  pub properties : List (String × String)
  pub firewall : FirewallConfig
  pub display_name : String
  pub org_id : String
  pub org_name : String
  pub protocol_name : String
  pub dns_name : String
  pub tags : List String
  pub vm_config : VmConfig
  pub image : NodeImage
  pub initialized : Bool

pub data CpuAssignmentUpdate : Type 0 where
  no_update : CpuAssignmentUpdate
  acquired_cpus : ℕ → CpuAssignmentUpdate
  released_cpus : List ℕ → CpuAssignmentUpdate

pub data UpgradeStep : Type 0 where
  stop_step : UpgradeStep
  cpu_assignment : CpuAssignmentUpdate → UpgradeStep
  vm_step : UpgradeStep
  plugin_step : UpgradeStep
  firewall_step : UpgradeStep
  restart_step : UpgradeStep

-- Of the error for which the upgrade is rolled back, only that there is one.
pub record UpgradeState : Type 0 where
  pub active : Bool
  pub state_backup : Option StateBackup
  pub need_rollback : Bool
  pub steps : List UpgradeStep
  pub data_stamp : Option ℕ

-- The fields that a backup has are kept together. Those that are set once, at the creation of the node,
-- are left out: they are only passed on to the calls of the host.
pub record NodeState : Type 0 where
  pub details : StateBackup
  pub assigned_cpus : List ℕ
  pub expected_status : VmStatus
  pub started_at : Option ℕ
  pub restarting : Bool
  pub upgrade_state : UpgradeState

abbrev pub no_upgrade : UpgradeState
no_upgrade = record {
  active = false;
  state_backup = none;
  need_rollback = false;
  steps = [];
  data_stamp = none;
}

-- The backup, with what the state had, and the state with what the backup had.
unfoldable pub swap_state : StateBackup → NodeState → StateBackup × NodeState
swap_state backup state = (state.details, record state { details = backup })

abbrev pub is_stop : UpgradeStep → Bool
is_stop stop_step = true
is_stop _ = false

abbrev pub is_vm : UpgradeStep → Bool
is_vm vm_step = true
is_vm _ = false

abbrev pub is_plugin : UpgradeStep → Bool
is_plugin plugin_step = true
is_plugin _ = false

abbrev pub is_firewall : UpgradeStep → Bool
is_firewall firewall_step = true
is_firewall _ = false

abbrev pub is_cpu_assignment : UpgradeStep → Bool
is_cpu_assignment (cpu_assignment cpus) = true
is_cpu_assignment _ = false

abbrev pub push_step : UpgradeStep → NodeState → NodeState
push_step step state = record state {
  upgrade_state = record state.upgrade_state { steps = state.upgrade_state.steps ++ step ∷ [] };
}

abbrev pub has_step : (UpgradeStep → Bool) → NodeState → Bool
has_step is_step state = any is_step state.upgrade_state.steps

-- The assignment of cores that `find` is at.
abbrev pub find_cpus : List UpgradeStep → CpuAssignmentUpdate
find_cpus [] = no_update
find_cpus (cpu_assignment cpus ∷ steps) = cpus
find_cpus (_ ∷ steps) = find_cpus steps

-- `swap_remove`: the last element takes the place of the one that is removed.
abbrev pub move_last : UpgradeStep → List UpgradeStep → List UpgradeStep
move_last step [] = step ∷ []
move_last step (last ∷ steps) = last ∷ step ∷ steps

abbrev pub last_to_front : List UpgradeStep → List UpgradeStep
last_to_front [] = []
last_to_front (step ∷ []) = step ∷ []
last_to_front (step ∷ next ∷ steps) = move_last step (last_to_front (next ∷ steps))

abbrev pub swap_remove : (UpgradeStep → Bool) → List UpgradeStep → List UpgradeStep
swap_remove is_step [] = []
swap_remove is_step (step ∷ steps) =
    if is_step step then last_to_front steps else step ∷ swap_remove is_step steps
