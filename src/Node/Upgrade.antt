-- ===== src/Node/Upgrade.antt =====
-- `upgrade` of `Node` in bv/src/node.rs.
use blockvisor.Common.{ℕ, Bool, true, false, Option, none, some, List, ◌==◌, if◌then◌else◌}
use blockvisor.CpuRegistry.{release}
use blockvisor.NodeState.{
  StateBackup, CpuAssignmentUpdate, NodeState, released_cpus, stop_step, no_upgrade, swap_state,
  push_step, find_cpus, running, failed,
}
use blockvisor.Node.{Op, ◌then◌, calls, save_state, change, status, same_status, stop}
use blockvisor.Node.Attempt.{Host, Upgrade, HostOp, on_node, try_upgrade}
use blockvisor.Node.Rollback.{
  Outcome, Rollback, rollback, outcome_of, or_internal, end_upgrade, upgraded, upgrade_failure,
  blocking_job_running, internal,
}
pub mod Assigned
pub mod Begun
pub mod Decided
pub mod Finished
pub mod Interrupted
pub mod Judged
pub mod Prepared
pub mod Restored
pub mod RolledBack
pub mod Undo
pub mod Unread
pub mod Sizes
pub mod Upgraded

abbrev pub same_stamp : Option ℕ → Option ℕ → Bool
same_stamp none none = true
same_stamp (some a) (some b) = a == b
same_stamp _ _ = false

abbrev pub ask_rollback : StateBackup → NodeState → NodeState
ask_rollback backup state = record state {
  upgrade_state = record state.upgrade_state { state_backup = some backup; need_rollback = true };
}

unfoldable pub swap_with : StateBackup → NodeState → NodeState
unfolding swap_state
swap_with backup state =
    let (taken, swapped) = swap_state backup state in ask_rollback taken swapped

unfoldable pub swap_back : Upgrade → Rollback → Option StateBackup → Host → Host × Outcome
unfolding rollback
swap_back env back none host = (host, upgrade_failure)
swap_back env back (some backup) host =
    or_internal (on_node (change (swap_with backup) then save_state env.saves_swapped) host)
      (rollback back)

-- Once the data is changed, there is no way back.
unfoldable pub failed_upgrade : Upgrade → Rollback → Option (Option ℕ) → Host → Host × Outcome
unfolding swap_back
failed_upgrade env back none host = (host, internal)
failed_upgrade env back (some stamp) host =
    if same_stamp host.node.state.upgrade_state.data_stamp stamp
    then swap_back env back host.node.state.upgrade_state.state_backup host
    else (host, upgrade_failure)

abbrev pub release_step : CpuAssignmentUpdate → List ℕ → List ℕ
release_step (released_cpus cpus) registry = release cpus registry
release_step _ registry = registry

-- The backup of the machine is dropped where it can be.
unfoldable pub finish_upgrade : Bool → HostOp
finish_upgrade saves host = on_node (change end_upgrade then save_state saves) (record host {
  registry = release_step (find_cpus host.node.state.upgrade_state.steps) host.registry;
})

unfoldable pub end_try : Upgrade → Rollback → Host × Bool → Host × Outcome
unfolding failed_upgrade finish_upgrade
end_try env back (host, true) = outcome_of upgraded (finish_upgrade env.saves_upgraded host)
end_try env back (host, false) = failed_upgrade env back env.stamp_after host

unfoldable pub resume_upgrade : Upgrade → Rollback → Host → Host × Outcome
unfolding rollback try_upgrade
resume_upgrade env back host =
    if host.node.state.upgrade_state.need_rollback
    then rollback back host
    else end_try env back (try_upgrade env host)

abbrev pub set_restarting : NodeState → NodeState
set_restarting state = record (push_step stop_step state) { restarting = true }

unfoldable pub stop_running : Upgrade → Bool → Op
unfolding stop
stop_running env false = calls true
stop_running env true = change set_restarting then stop env.stop false

-- The backup of the desired state, which the node is given.
abbrev pub of_desired : NodeState → StateBackup
of_desired desired = record desired.details { initialized = false }

unfoldable pub activate : NodeState → Option ℕ → NodeState → NodeState
unfolding swap_state
activate desired stamp state =
    let (backup, swapped) = swap_state (of_desired desired) state in
    record swapped {
      upgrade_state = record state.upgrade_state {
        active = true;
        data_stamp = stamp;
        state_backup = some backup;
      };
    }

abbrev pub stamp_and_activate : Upgrade → NodeState → Option (Option ℕ) → Op
stamp_and_activate env desired none =
    change (λ (state : NodeState). record state {
      upgrade_state = record state.upgrade_state { active = true };
    })
    then calls false
stamp_and_activate env desired (some stamp) =
    change (activate desired stamp) then save_state env.saves_prepared

unfoldable pub prepare : Upgrade → NodeState → Bool → Op
prepare env desired runs =
    stop_running env runs then stamp_and_activate env desired env.stamp_before

abbrev pub reset_upgrade : Host → Host
reset_upgrade host = record host {
  node = record host.node { state = record host.node.state { upgrade_state = no_upgrade } };
}

unfoldable pub begin_upgrade :
    Upgrade → Rollback → NodeState → Bool → Option Bool → Host → Host × Outcome
unfolding prepare resume_upgrade
begin_upgrade env back desired true none host = (host, internal)
begin_upgrade env back desired true (some true) host = (host, blocking_job_running)
begin_upgrade env back desired runs blocking_job host =
    or_internal (on_node (prepare env desired runs) host) (resume_upgrade env back)

-- Where an upgrade was interrupted, it is resumed.
unfoldable pub upgrade : Upgrade → Rollback → NodeState → Host → Host × Outcome
unfolding status begin_upgrade resume_upgrade
upgrade env back desired host =
    if same_status (status host.node) failed
    then (host, internal)
    else if host.node.state.upgrade_state.active
    then resume_upgrade env back host
    else begin_upgrade env back desired (same_status (status host.node) running) env.blocking_job
        (reset_upgrade host)
