-- ===== src/Examples/Node.antt =====
-- A running node of two cores that is given three: the theorems on bv/src/node.rs at concrete inputs.
use blockvisor.Common.{ℕ, ◌≡◌, refl, Bool, true, false, none, some, [], ◌∷◌, arith}
use blockvisor.Firewall.{Action}
use blockvisor.CpuRegistry.{acquire, release}
use blockvisor.NodeState.{
  StateBackup, NodeState, NodeImage, vm_running, running, no_upgrade, swap_state,
}
use blockvisor.Node.{Start, Stop, ◌then◌, choose}
use blockvisor.Node.Attempt.{Host, Upgrade, unless_done}
use blockvisor.Node.Rollback.{Outcome, Rollback, rolled_back, upgraded}
use blockvisor.Node.Upgrade.{upgrade, end_try, begin_upgrade, swap_with, activate, stop_running}
use blockvisor.Node.Upgrade.Restored.{seen}
use blockvisor.Node.Upgrade.RolledBack.{upgrade-rolled_back}
use blockvisor.Node.Keeps.{mask}
use blockvisor.Node.Upgrade.Unread.{upgrade-unread}
use blockvisor.Node.Upgrade.Finished.{Done}
use blockvisor.Node.Upgrade.Interrupted.{Upgrading, begins, again, Upgrading-Right}

abbrev an_image : NodeImage
an_image = record {
  id = "image";
  version = "1.0.0";
  config_id = "config";
  archive_id = "archive";
  store_key = "store";
  uri = "docker://image";
  min_babel_version = "0.50.0";
}

abbrev pub details_of : ℕ → StateBackup
details_of vcpu_count = record {
  properties = [];
  firewall = record { default_in = Action.deny; default_out = Action.allow; rules = [] };
  display_name = "node";
  org_id = "org";
  org_name = "organization";
  protocol_name = "protocol";
  dns_name = "node.local";
  tags = [];
  vm_config = record {
    vcpu_count = vcpu_count;
    mem_size_mb = 1024;
    disk_size_gb = 10;
    ramdisks = [];
  };
  image = an_image;
  initialized = true;
}

abbrev pub state_of : ℕ → NodeState
state_of vcpu_count = record {
  details = details_of vcpu_count;
  assigned_cpus = 2 ∷ 3 ∷ [];
  expected_status = running;
  started_at = some 7;
  restarting = false;
  upgrade_state = no_upgrade;
}

abbrev pub a_host : Host
a_host = record {
  node = record {
    state = state_of 2;
    saved = state_of 2;
    vm = vm_running;
    connection_closed = false;
    connection_broken = false;
  };
  registry = 0 ∷ 1 ∷ [];
}

abbrev pub starts : Start
starts = record {
  saves_status = true;
  engine_starts = true;
  machine_starts = true;
  connects = true;
  sets_up = true;
  inits = true;
  saves_started = true;
  now = 9;
}

abbrev pub stops : Stop
stops = record {
  saves_status = true;
  babel_stops = true;
  saves_stopped = true;
  shuts_down = true;
  forced_shut_down = true;
  in_time = true;
  engine_stops = true;
}

-- The firewall is applied, or it is not.
abbrev upgrade_with : Bool → Upgrade
upgrade_with applies = record {
  blocking_job = some false;
  stop = stops;
  stamp_before = some (some 5);
  saves_prepared = true;
  saves_cpus = true;
  machine_upgrades = true;
  saves_machine = true;
  updates_info = true;
  updates_plugin = true;
  saves_plugin = true;
  applies_firewall = applies;
  saves_firewall = true;
  start = starts;
  stamp_after = some (some 5);
  saves_swapped = true;
  saves_upgraded = true;
}

abbrev a_rollback : Rollback
a_rollback = record {
  stop = stops;
  saves_cpus = true;
  machine_rolls_back = true;
  saves_machine = true;
  updates_info = true;
  updates_plugin = true;
  saves_plugin = true;
  applies_firewall = true;
  saves_firewall = true;
  start = starts;
  saves_failed = true;
  saves_rolled_back = true;
}

abbrev rolled_back_host : Host
rolled_back_host = (upgrade (upgrade_with false) a_rollback (state_of 3) a_host).0

rolls_back :
    upgrade (upgrade_with false) a_rollback (state_of 3) a_host ≡ (rolled_back_host, rolled_back)
unfolding upgrade end_try begin_upgrade swap_with activate stop_running ◌then◌ choose unless_done
    acquire release swap_state
rolls_back = refl

-- The first call can not tell whether the data has changed.
abbrev unreadable : Upgrade
unreadable = record (upgrade_with false) { stamp_after = none }

abbrev first_call : Host × Outcome
first_call = upgrade unreadable a_rollback (state_of 3) a_host

abbrev second_call : Host × Outcome
second_call = upgrade (upgrade_with true) a_rollback (state_of 2) first_call.0

first_call-Upgrading : Upgrading (state_of 3) a_host first_call.0 first_call.1
first_call-Upgrading = begins unreadable a_rollback refl (λ e. absurd (ground arith))

second_call-Upgrading : Upgrading (state_of 3) a_host second_call.0 second_call.1
unfolding upgrade end_try begin_upgrade swap_with activate stop_running ◌then◌ choose unless_done
    acquire
second_call-Upgrading = again (upgrade_with true) a_rollback (state_of 2) first_call-Upgrading refl

Upgrading-Right_example : Done (state_of 3) a_host second_call.0
unfolding upgrade end_try begin_upgrade swap_with activate stop_running ◌then◌ choose unless_done
    acquire
Upgrading-Right_example =
    Upgrading-Right (state_of 3) a_host second_call.0 second_call.1 second_call-Upgrading

upgrade-rolled_back_example : seen rolled_back_host ≡ seen a_host
upgrade-rolled_back_example =
    upgrade-rolled_back (upgrade_with false) a_rollback (state_of 3) a_host rolled_back_host refl
      rolls_back

-- The stamp can not be read before the upgrade, and then it can.
abbrev unread : Upgrade
unread = record (upgrade_with true) { stamp_before = none }

abbrev left_host : Host
left_host = (upgrade unread a_rollback (state_of 3) a_host).0

abbrev resumed_host : Host
resumed_host = (upgrade (upgrade_with true) a_rollback (state_of 3) left_host).0

left_host-active : left_host.node.state.upgrade_state.active ≡ true
unfolding upgrade end_try begin_upgrade swap_with activate stop_running ◌then◌ choose
left_host-active = refl

resumes_left :
    upgrade (upgrade_with true) a_rollback (state_of 3) left_host ≡ (resumed_host, upgraded)
unfolding upgrade end_try begin_upgrade swap_with activate stop_running ◌then◌ choose unless_done
    acquire release swap_state
resumes_left = refl

upgrade-unread_example : mask resumed_host.node.state.details ≡ mask a_host.node.state.details
upgrade-unread_example =
    upgrade-unread unread (upgrade_with true) a_rollback a_rollback (state_of 3) (state_of 3) a_host
      resumed_host refl refl left_host-active resumes_left
