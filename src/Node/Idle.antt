-- ===== src/Node/Idle.antt =====
-- Why no node of bv/src/node.rs is started or stopped so that it is expected to be busy.
use blockvisor.Common.{◌≡◌, refl, Bool, true, false, ◌&&◌, ◌||◌}
use blockvisor.NodeState.{
  VmState, VmStatus, vm_running, vm_shutoff, vm_invalid, running, stopped, failed, busy,
}
use blockvisor.Node.{
  Node, Op, Start, Stop, calls, save_state, save_expected_status, status, same_status, start, stop,
  start_stopped, start_as, start_machine_in, connect, init_unless, stop_machine_in, stop_running,
  switch_off,
}
use blockvisor.Node.Preserves.{Preserves, preserves, ◌with_then◌, choose-Preserves}

abbrev pub IsIdle : Node → Type 0
IsIdle node = same_status node.state.expected_status busy ≡ false

abbrev pub Idles : Op → Type 0
Idles = Preserves IsIdle

pub idles : {op : Op} → ((node : Node) → IsIdle node → IsIdle (op node).0) → Idles op
idles h = preserves h

nothing-Idles : (success : Bool) → Idles (calls success)
nothing-Idles success = idles (λ node i. i)

save_state-Idles : (saves : Bool) → Idles (save_state saves)
save_state-Idles true = idles (λ node i. i)
save_state-Idles false = idles (λ node i. i)

pub save_expected_status-Idles :
    (saves : Bool) (s : VmStatus)
    → same_status s busy ≡ false
    → Idles (save_expected_status saves s)
save_expected_status-Idles saves s e = idles (λ node i. e) with_then save_state-Idles saves

start_machine-Idles : (success : Bool) (vm : VmState) → Idles (start_machine_in success vm)
start_machine-Idles true vm_shutoff = idles (λ node i. i)
start_machine-Idles false vm_shutoff = idles (λ node i. i)
start_machine-Idles success vm_running = idles (λ node i. i)
start_machine-Idles success vm_invalid = idles (λ node i. i)

connect-Idles : (success : Bool) → Idles (connect success)
connect-Idles true = idles (λ node i. i)
connect-Idles false = idles (λ node i. i)

init-Idles : (initialized inits : Bool) → Idles (init_unless initialized inits)
init-Idles true inits = idles (λ node i. i)
init-Idles false true = idles (λ node i. i)
init-Idles false false = idles (λ node i. i)

start_stopped-Idles : (env : Start) → Idles (start_stopped env)
unfolding start_stopped
start_stopped-Idles env =
    nothing-Idles env.engine_starts
    with_then idles (λ node. (start_machine-Idles env.machine_starts node.vm).preserved node)
    with_then connect-Idles env.connects
    with_then nothing-Idles env.sets_up
    with_then idles (λ node. (init-Idles node.state.details.initialized env.inits).preserved node)
    with_then idles (λ node i. i)
    with_then save_state-Idles env.saves_started

start_as-Idles : (env : Start) (s : VmStatus) → Idles (start_as env s)
unfolding start_as
start_as-Idles env running = save_expected_status-Idles env.saves_status running refl
start_as-Idles env stopped =
    save_expected_status-Idles env.saves_status running refl with_then start_stopped-Idles env
start_as-Idles env failed =
    save_expected_status-Idles env.saves_status running refl with_then start_stopped-Idles env
start_as-Idles env busy =
    save_expected_status-Idles env.saves_status running refl with_then start_stopped-Idles env

pub start-Idles : (env : Start) → Idles (start env)
unfolding start
start-Idles env =
    choose-Preserves
      (λ node. same_status (status node) failed && same_status node.state.expected_status stopped)
      (nothing-Idles false) (idles (λ node. (start_as-Idles env (status node)).preserved node))

stop_machine-Idles : (env : Stop) (vm : VmState) → Idles (stop_machine_in env vm)
unfolding switch_off
stop_machine-Idles env vm_shutoff = idles (λ node i. i)
stop_machine-Idles env vm_running =
    choose-Preserves (λ node. (env.shuts_down || env.forced_shut_down) && env.in_time)
      (idles (λ node i. i)) (nothing-Idles false)
stop_machine-Idles env vm_invalid =
    choose-Preserves (λ node. (env.shuts_down || env.forced_shut_down) && env.in_time)
      (idles (λ node i. i)) (nothing-Idles false)

pub stop-Idles : (env : Stop) (force : Bool) → Idles (stop env force)
unfolding stop stop_running
stop-Idles env force =
    save_expected_status-Idles env.saves_status stopped refl
    with_then choose-Preserves (λ node. same_status (status node) stopped) (nothing-Idles true)
        (nothing-Idles (env.babel_stops || force)
          with_then idles (λ node i. i)
          with_then idles (λ node i. i)
          with_then save_state-Idles env.saves_stopped
          with_then idles (λ node. (stop_machine-Idles env node.vm).preserved node)
          with_then nothing-Idles env.engine_stops)
