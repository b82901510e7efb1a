-- ===== src/Node/Attempt.antt =====
-- `try_upgrade` of `Node` in bv/src/node.rs, on a node and the registry of the host's cores. Which
-- calls of the machine, of babel, of the firewall and of the file system are successful is given.
use blockvisor.Common.{
  ℕ, ◌-◌, Bool, true, false, Option, none, some, List, ◌++◌, ltb, ◌==◌, if◌then◌else◌, length, drop,
  take,
}
use blockvisor.CpuRegistry.{acquire}
use blockvisor.NodeState.{
  UpgradeStep, NodeState, acquired_cpus, released_cpus, cpu_assignment, vm_step, plugin_step,
  firewall_step, is_stop, is_vm, is_plugin, is_firewall, push_step, has_step,
}
use blockvisor.Node.{Node, Op, OpOf, Start, Stop, ◌then◌, calls, save_state, change, start, choose}

pub record Host : Type 0 where
  pub node : Node
  pub registry : List ℕ

-- A stamp is `none` where it can not be read, and `some none` where there is no data.
pub record Upgrade : Type 0 where
  pub blocking_job : Option Bool  -- none where the jobs can not be read
  pub stop : Stop
  pub stamp_before : Option (Option ℕ)
  pub saves_prepared : Bool
  pub saves_cpus : Bool
  pub machine_upgrades : Bool
  pub saves_machine : Bool
  pub updates_info : Bool
  pub updates_plugin : Bool
  pub saves_plugin : Bool
  pub applies_firewall : Bool
  pub saves_firewall : Bool
  pub start : Start
  pub stamp_after : Option (Option ℕ)
  pub saves_swapped : Bool
  pub saves_upgraded : Bool

abbrev pub HostOp : Type 0
HostOp = OpOf Host

abbrev pub with_node : Host → Node × Bool → Host × Bool
with_node host (node, success) = (record host { node = node }, success)

abbrev pub on_node : Op → HostOp
on_node op host = with_node host (op host.node)

abbrev pub set_cpus : List ℕ → NodeState → NodeState
set_cpus cpus state = record state { assigned_cpus = cpus }

abbrev pub push : UpgradeStep → HostOp
push step = on_node (change (push_step step))

abbrev pub add_acquired : Option (List ℕ × List ℕ) → HostOp
add_acquired none host = (host, false)
add_acquired (some (cpus, rest)) host = (
  record host {
    node = record host.node {
      state = set_cpus (host.node.state.assigned_cpus ++ cpus) host.node.state;
    };
    registry = rest;
  },
  true,
)

abbrev pub acquire_cpus : ℕ → HostOp
acquire_cpus n host = add_acquired (acquire n host.registry) host

-- What is past the wanted number is released, but not yet to the registry.
unfoldable pub give_cpus : ℕ → List ℕ → HostOp
give_cpus n cpus =
    push (cpu_assignment (released_cpus (drop n cpus)))
    then on_node (change (set_cpus (take n cpus)))

unfoldable pub take_cpus : ℕ → List ℕ → HostOp
take_cpus n cpus =
    push (cpu_assignment (acquired_cpus (length cpus))) then acquire_cpus (n - length cpus)

abbrev pub assigned : Host → List ℕ
assigned host = host.node.state.assigned_cpus

abbrev pub wanted : Host → ℕ
wanted host = host.node.state.details.vm_config.vcpu_count

unfoldable pub assign_cpus : HostOp
unfolding give_cpus take_cpus
assign_cpus =
    choose (λ host. ltb (wanted host) (length (assigned host)))
      (λ host. give_cpus (wanted host) (assigned host) host)
      (λ host. take_cpus (wanted host) (assigned host) host)

unfoldable pub update_cpus : Bool → HostOp
unfolding assign_cpus
update_cpus saves =
    choose (λ host. length (assigned host) == wanted host) (calls true)
      (assign_cpus then on_node (save_state saves))

-- `insert_step`, and what is done where the step was not there.
unfoldable pub unless_done : (UpgradeStep → Bool) → UpgradeStep → Op → Op
unless_done is_step step op =
    choose (λ node. has_step is_step node.state) (calls true) (change (push_step step) then op)

-- A call, after which the state is saved even where it fails.
abbrev pub call_and_save : Bool → Bool → Op
call_and_save success saves = save_state saves then calls success

unfoldable pub start_if_stopped : Start → Op
unfolding start
start_if_stopped env = choose (λ node. has_step is_stop node.state) (start env) (calls true)

unfoldable pub try_steps : Upgrade → Op
unfolding start_if_stopped
try_steps env =
    unless_done is_vm vm_step (call_and_save env.machine_upgrades env.saves_machine)
    then unless_done is_plugin plugin_step
        (calls env.updates_info then call_and_save env.updates_plugin env.saves_plugin)
    then unless_done is_firewall firewall_step
        (call_and_save env.applies_firewall env.saves_firewall)
    then start_if_stopped env.start

unfoldable pub try_upgrade : Upgrade → HostOp
unfolding update_cpus try_steps
try_upgrade env = update_cpus env.saves_cpus then on_node (try_steps env)
