-- ===== src/Node/Recovery/Weight.antt =====
-- How the failures that the recovery of a node in bv/src/node.rs counts add up.
use blockvisor.Common.{
  ℕ, ◌+◌, ◌≤◌, min, ◌≡◌, refl, ap, Bool, true, false, not, ◌&&◌, ◌||◌, Option, none, some, arith,
  if◌then◌else◌,
}
use blockvisor.NodeState.{
  VmState, VmStatus, vm_running, vm_shutoff, vm_invalid, running, stopped, failed, busy,
}
use blockvisor.Node.{Node, ◌then◌, save_expected_status, same_status, start, stop}
use blockvisor.Node.Recovery.{
  RecoveryBackoff, Recovering, Recovery, no_backoff, backoff, start_failed, stop_failed,
  reconnect_failed, vm_recovery_failed, post_recovery, with_backoff, give_up, tried,
  started_node_recovery, restart, recover_by_restart, restart_after, connection_seen, machine_seen,
  node_connection_recovery, vm_recovery, recover_machine, recovered_stop, recover_expected, recover,
}

abbrev is_none : Option ℕ → Bool
is_none none = true
is_none (some time) = false

-- The node is marked as failed, or nothing is held against it.
abbrev pub settled : Recovering → Bool
settled r =
    same_status r.node.state.expected_status failed || is_none r.recovery_backoff.backoff_time

abbrev pub weight : RecoveryBackoff → ℕ
weight b = b.start + b.stop + min 3 b.reconnect + min 3 b.vm

-- The failures that are counted are too few to give up.
abbrev pub Low : RecoveryBackoff → Type 0
Low b = (b.start ≤ 2) × (b.stop ≤ 2)

abbrev pub Heavier : ℕ → Recovering → Type 0
Heavier w r = settled r ≡ false → (w + 1 ≤ weight r.recovery_backoff) × Low r.recovery_backoff

marked-settled :
    (saves : Bool) (node : Node) (b : RecoveryBackoff)
    → settled (with_backoff b (save_expected_status saves failed node)).0 ≡ true
unfolding ◌then◌
marked-settled true node b = refl
marked-settled false node b = refl

give_up-Heavier :
    (saves : Bool) (node : Node) (failure : RecoveryBackoff × Bool) (w : ℕ)
    → (failure.1 ≡ false → (w + 1 ≤ weight failure.0) × Low failure.0)
    → Heavier w (give_up saves node failure).0
give_up-Heavier saves node (b, true) w h e = absurd (ground (arith, marked-settled saves node b))
give_up-Heavier saves node (b, false) w h e = h refl

tried-Heavier :
    (saves : Bool) (r : Node × Bool) (failure : RecoveryBackoff × Bool) (w : ℕ)
    → (failure.1 ≡ false → (w + 1 ≤ weight failure.0) × Low failure.0)
    → Heavier w (tried saves r failure).0
tried-Heavier saves (node, true) failure w h = λ e. absurd (ground arith)
tried-Heavier saves (node, false) failure w h = give_up-Heavier saves node failure w h

start_failed-Heavier :
    (now : ℕ) (b : RecoveryBackoff)
    → Low b
    → (start_failed now b).1 ≡ false
    → (weight b + 1 ≤ weight (start_failed now b).0) × Low (start_failed now b).0
unfolding start_failed
start_failed-Heavier now b (low, low') e = (omega arith, (ground arith, low'))

stop_failed-Heavier :
    (now : ℕ) (b : RecoveryBackoff)
    → Low b
    → (stop_failed now b).1 ≡ false
    → (weight b + 1 ≤ weight (stop_failed now b).0) × Low (stop_failed now b).0
unfolding stop_failed
stop_failed-Heavier now b (low, low') e = (omega arith, (low, ground arith))

started-Heavier :
    (env : Recovery) (r : Recovering)
    → Low r.recovery_backoff
    → Heavier (weight r.recovery_backoff) (started_node_recovery env r).0
unfolding started_node_recovery
started-Heavier env r low =
    tried-Heavier env.saves_failed (start env.start r.node)
      (start_failed env.now r.recovery_backoff) (weight r.recovery_backoff)
      (start_failed-Heavier env.now r.recovery_backoff low)

restart_after-Heavier :
    (env : Recovery) (node : Node) (failure : RecoveryBackoff × Bool) (w : ℕ)
    → Low failure.0
    → w ≤ weight failure.0
    → (failure.1 ≡ false → w + 1 ≤ weight failure.0)
    → Heavier w (restart_after env node failure).0
unfolding recover_by_restart
restart_after-Heavier env node (b, true) w low le h =
    tried-Heavier env.saves_failed (restart env true node) (stop_failed env.now b) w
      (λ e. let (more, low') = stop_failed-Heavier env.now b low e in (omega arith, low'))
restart_after-Heavier env node (b, false) w low le h = λ _. (h refl, low)

if-Heavier :
    (t : Bool) (x y : Recovering × Bool) (w : ℕ)
    → Heavier w x.0
    → Heavier w y.0
    → Heavier w (if t then x else y).0
if-Heavier true x y w h k = h
if-Heavier false x y w h k = k

post_recovery-Heavier : (node : Node) (w : ℕ) → Heavier w (post_recovery node)
post_recovery-Heavier node w e = absurd (ground arith)

connection-Heavier :
    (env : Recovery) (r : Recovering)
    → Low r.recovery_backoff
    → Heavier (weight r.recovery_backoff) (node_connection_recovery env r).0
unfolding node_connection_recovery reconnect_failed
connection-Heavier env r low =
    let node = connection_seen env r.node in
    let w = weight r.recovery_backoff in
    let b = r.recovery_backoff in
    let closed = started_node_recovery env (record r { node = node }) in
    let open_one : Recovering × Bool = (post_recovery node, true) in
    let again : Recovering × Bool = (post_recovery (machine_seen env node), true) in
    let failure = reconnect_failed env.now b in
    let restarts = restart_after env (machine_seen env node) failure in
    if-Heavier env.tests (if env.closed then closed else open_one)
      (if env.machine_recovers && env.tests_again then again else restarts) w
      (if-Heavier env.closed closed open_one w (started-Heavier env (record r { node = node }) low)
        (post_recovery-Heavier node w))
      (if-Heavier (env.machine_recovers && env.tests_again) again restarts w
        (post_recovery-Heavier (machine_seen env node) w)
        (restart_after-Heavier env (machine_seen env node) failure w low (omega arith)
          (λ few. ground arith)))

vm-Heavier :
    (env : Recovery) (r : Recovering)
    → Low r.recovery_backoff
    → Heavier (weight r.recovery_backoff) (vm_recovery env r).0
unfolding vm_recovery vm_recovery_failed
vm-Heavier env r low =
    let node = machine_seen env r.node in
    let w = weight r.recovery_backoff in
    let failure = vm_recovery_failed env.now r.recovery_backoff in
    if-Heavier env.machine_recovers (post_recovery node, true) (restart_after env node failure) w
      (post_recovery-Heavier node w)
      (restart_after-Heavier env node failure w low (omega arith) (λ few. ground arith))

with_no_backoff-Heavier : (r : Node × Bool) (w : ℕ) → Heavier w (with_backoff no_backoff r).0
with_no_backoff-Heavier (node, success) w = post_recovery-Heavier node w

recovered_stop-Heavier :
    (env : Recovery) (b : RecoveryBackoff) (r : Node × Bool)
    → Low b
    → Heavier (weight b) (recovered_stop env b r).0
recovered_stop-Heavier env b (node, true) low =
    if-Heavier node.state.restarting (with_backoff no_backoff (start env.start node))
      (post_recovery node, true) (weight b)
      (with_no_backoff-Heavier (start env.start node) (weight b))
      (post_recovery-Heavier node (weight b))
recovered_stop-Heavier env b (node, false) low =
    give_up-Heavier env.saves_failed node (stop_failed env.now b) (weight b)
      (stop_failed-Heavier env.now b low)

machine-Heavier :
    (env : Recovery) (vm : VmState) (r : Recovering)
    → Low r.recovery_backoff
    → Heavier (weight r.recovery_backoff) (recover_machine env vm r).0
machine-Heavier env vm_shutoff r low = started-Heavier env r low
machine-Heavier env vm_invalid r low = vm-Heavier env r low
machine-Heavier env vm_running r low = connection-Heavier env r low

expected-Heavier :
    (env : Recovery) (s : VmStatus) (r : Recovering)
    → r.node.state.expected_status ≡ s
    → same_status s busy ≡ false
    → Low r.recovery_backoff
    → Heavier (weight r.recovery_backoff) (recover_expected env s r).0
unfolding recover_expected
expected-Heavier env running r e idle low =
    if-Heavier (not r.node.state.details.initialized) (started_node_recovery env r)
      (recover_machine env r.node.vm r) (weight r.recovery_backoff) (started-Heavier env r low)
      (machine-Heavier env r.node.vm r low)
expected-Heavier env stopped r e idle low =
    recovered_stop-Heavier env r.recovery_backoff
      (stop env.stop (r.node.connection_closed || r.node.connection_broken) r.node) low
expected-Heavier env failed r e idle low =
    λ unsettled. absurd (ground (arith, ap (λ s. same_status s failed) e))
expected-Heavier env busy r e idle low = absurd (ground arith)

if-recover :
    (t : Bool) (x y : Recovering × Bool) (w : ℕ)
    → t ≡ false
    → Heavier w y.0
    → Heavier w (if t then x else y).0
if-recover true x y w e h = absurd (ground arith)
if-recover false x y w e h = h

pub recover-Heavier :
    (env : Recovery) (r : Recovering)
    → backoff env.now r.recovery_backoff ≡ false
    → same_status r.node.state.expected_status busy ≡ false
    → Low r.recovery_backoff
    → Heavier (weight r.recovery_backoff) (recover env r).0
unfolding recover
recover-Heavier env r due idle low =
    if-recover (backoff env.now r.recovery_backoff) (r, true)
      (recover_expected env r.node.state.expected_status r) (weight r.recovery_backoff) due
      (expected-Heavier env r.node.state.expected_status r refl idle low)
