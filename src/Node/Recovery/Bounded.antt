-- ===== src/Node/Recovery/Bounded.antt =====
-- Why the recovery of a node by bv/src/node.rs comes to an end.
use blockvisor.Common.{◌+◌, ◌≤◌, ◌≡◌, Bool, false, List, ◌∷◌, arith, length, []}
use blockvisor.NodeState.{VmState}
use blockvisor.Node.{Node}
use blockvisor.Node.Recovery.{Recovering, Recovery, no_backoff, backoff, recover}
use blockvisor.Node.Recovery.Weight.{settled, weight, Low, recover-Heavier}
use blockvisor.Node.Idle.{IsIdle}
use blockvisor.Node.Recovery.Idle.{recover-IsIdle}

-- A call of `recover`, with what has become of the machine and of the connection before it.
pub record Round : Type 0 where
  pub vm : VmState
  pub closed : Bool
  pub broken : Bool
  pub recovery : Recovery

abbrev found : Round → Recovering → Recovering
found round r = record r {
  node = record r.node {
    vm = round.vm;
    connection_closed = round.closed;
    connection_broken = round.broken;
  };
}

abbrev pub next_round : Round → Recovering → Recovering
next_round round r = (recover round.recovery (found round r)).0

-- Each call was made when it was due, and after none of them is the node marked as failed or the
-- backoff reset.
abbrev pub Unsettled : List Round → Recovering → Type 0
Unsettled [] r = Unit {0}
Unsettled (round ∷ rounds) r =
    (backoff round.recovery.now r.recovery_backoff ≡ false)
    × ((settled (next_round round r) ≡ false) × Unsettled rounds (next_round round r))

rounds-bounded :
    (rounds : List Round) (r : Recovering)
    → IsIdle r.node
    → Low r.recovery_backoff
    → Unsettled rounds r
    → weight r.recovery_backoff + length rounds ≤ 10
rounds-bounded [] r idle low u = omega arith
rounds-bounded (round ∷ rounds) r idle low (due, (unsettled, u)) =
    let (heavier, low') = recover-Heavier round.recovery (found round r) due idle low unsettled in
    let more =
      rounds-bounded rounds (next_round round r)
        (recover-IsIdle round.recovery (found round r) idle) low' u in
    omega (arith, heavier, more)

-- Whatever the calls of the host give and whatever becomes of the machine and of its connection, at
-- most ten calls of `recover` in a row can end with neither a recovery nor the node marked as failed,
-- beginning with no failures counted. The calls are those that are due.
pub recover-bounded :
    (rounds : List Round) (node : Node)
    → IsIdle node
    → Unsettled rounds (record { node = node; recovery_backoff = no_backoff })
    → length rounds ≤ 10
recover-bounded rounds node idle u =
    let bound =
      rounds-bounded rounds (record { node = node; recovery_backoff = no_backoff }) idle
        (omega arith, omega arith) u in
    omega (arith, bound)
