-- ===== src/Node/Update/Skipped.antt =====
-- What an update by bv/src/node.rs means for the next start of the node.
use blockvisor.Common.{
  ◌≡◌, refl, sym, ap, subst, ◌∙◌, Bool, true, false, ◌&&◌, Option, none, some, arith, if◌then◌else◌,
}
use blockvisor.NodeState.{
  VmState, VmStatus, running, stopped, failed, busy, vm_running, vm_shutoff, vm_invalid,
}
use blockvisor.Node.{
  Node, Op, Start, ◌then◌, after, choose, calls, save_state, change, save_expected_status, status,
  same_status, start, start_as, start_stopped, start_machine_in, connect, init, init_unless,
  set_started, set_initialized,
}
use blockvisor.Node.Keeps.{then-succeeds}
use blockvisor.Node.Preserves.{Preserves, preserves, ◌with_then◌}
use blockvisor.Node.Update.{
  ConfigUpdate, Update, UpdateOutcome, updated, has_values, forget_initialized, set_details,
  apply_config, apply_firewall, apply_values, apply_update, as_outcome, is_blocked, update_unless,
  update_as, update, set_up_running,
}

abbrev pub IsInitialized : Node → Type 0
IsInitialized node = node.state.details.initialized ≡ true

-- Two operations that do the same to a node that is initialized.
record Agree (first second : Op) : Type 0 where
  same : (node : Node) → IsInitialized node → first node ≡ second node

after-agree :
    (first second : Op) (r : Node × Bool)
    → Agree first second
    → IsInitialized r.0
    → after first r ≡ after second r
after-agree first second (node, true) h i = h.same node i
after-agree first second (node, false) h i = refl

then_agree :
    {first second second' : Op}
    → Preserves IsInitialized first
    → Agree second second'
    → Agree (first then second) (first then second')
unfolding ◌then◌
then_agree {first} {second} {second'} h k = record {
  same = λ node i. after-agree second second' (first node) k (h.preserved node i);
}

first_agree :
    {first first' : Op} (second : Op)
    → Agree first first'
    → Agree (first then second) (first' then second)
unfolding ◌then◌
first_agree second h = record { same = λ node i. ap (after second) (h.same node i) }

always : {op : Op} → Agree op op
always = record { same = λ node i. refl }

module _ (env : Start) (inits : Bool) where
  abbrev other : Start
  other = record env { inits = inits }

  init-agree : Agree (init env.inits) (init inits)
  init-agree = record {
    same = λ node i.
        ap (λ b. init_unless b env.inits node) i ∙ sym (ap (λ b. init_unless b inits node) i);
  }

  start_machine-IsInitialized :
      (success : Bool) (vm : VmState) → Preserves IsInitialized (start_machine_in success vm)
  start_machine-IsInitialized true vm_shutoff = preserves (λ node i. i)
  start_machine-IsInitialized false vm_shutoff = preserves (λ node i. i)
  start_machine-IsInitialized success vm_running = preserves (λ node i. i)
  start_machine-IsInitialized success vm_invalid = preserves (λ node i. i)

  connect-IsInitialized : (success : Bool) → Preserves IsInitialized (connect success)
  connect-IsInitialized true = preserves (λ node i. i)
  connect-IsInitialized false = preserves (λ node i. i)

  save_state-IsInitialized : (saves : Bool) → Preserves IsInitialized (save_state saves)
  save_state-IsInitialized true = preserves (λ node i. i)
  save_state-IsInitialized false = preserves (λ node i. i)

  saved-IsInitialized : Preserves IsInitialized (save_expected_status env.saves_status running)
  saved-IsInitialized = preserves (λ node i. i) with_then save_state-IsInitialized env.saves_status

  start_stopped-agree : Agree (start_stopped env) (start_stopped other)
  unfolding start_stopped
  start_stopped-agree =
      let ends = change (set_started env.now) then save_state env.saves_started in
      then_agree (preserves (λ node i. i)) (
        then_agree
          (preserves
            (λ node. (start_machine-IsInitialized env.machine_starts node.vm).preserved node))
          (then_agree (connect-IsInitialized env.connects)
            (then_agree (preserves (λ node i. i)) (first_agree ends init-agree))))

  starts-agree : (s : VmStatus) → Agree (start_as env s) (start_as other s)
  unfolding start_as
  starts-agree running = always
  starts-agree stopped = then_agree saved-IsInitialized start_stopped-agree
  starts-agree failed = then_agree saved-IsInitialized start_stopped-agree
  starts-agree busy = then_agree saved-IsInitialized start_stopped-agree

  if-agree : (b : Bool) (r x y : Node × Bool) → x ≡ y → (if b then r else x) ≡ (if b then r else y)
  if-agree true r x y h = refl
  if-agree false r x y h = h

  start-agree : Agree (start env) (start other)
  unfolding start choose
  start-agree = record {
    same = λ node i.
        if-agree
          (same_status (status node) failed && same_status node.state.expected_status stopped)
          (node, false) (start_as env (status node) node) (start_as other (status node) node)
          ((starts-agree (status node)).same node i);
  }

-- Once it is successful, it leaves the node initialized.
record Ensures (op : Op) : Type 0 where
  ensured : (node : Node) → (op node).1 ≡ true → IsInitialized (op node).0

then-Ensures : (first : Op) {second : Op} → Ensures second → Ensures (first then second)
then-Ensures first {second} h = record {
  ensured = λ node e.
      let done = then-succeeds first second node e in
      subst (λ (r : Node × Bool). IsInitialized r.0) (sym done)
        (h.ensured (first node).0 (sym (ap (λ r. r.1) done) ∙ e));
}

saved-Ensures : (saves : Bool) → Ensures (change set_initialized then save_state saves)
unfolding ◌then◌
saved-Ensures true = record { ensured = λ node e. refl }
saved-Ensures false = record { ensured = λ node e. refl }

apply_values-Ensures : (env : Update) (s : VmStatus) → Ensures (apply_values env s)
unfolding apply_values
apply_values-Ensures env s = then-Ensures (calls env.updates_info) (
    then-Ensures (calls env.updates_plugin)
      (then-Ensures (set_up_running env s) (saved-Ensures env.saves_initialized)))

if-Ensures :
    (b : Bool) (first second : Op)
    → b ≡ true
    → Ensures first
    → Ensures (if b then first else second)
if-Ensures true first second e h = h
if-Ensures false first second e h = absurd (ground arith)

apply_update-Ensures :
    (env : Update) (u : ConfigUpdate) (s : VmStatus)
    → has_values u ≡ true
    → Ensures (apply_update env u s)
unfolding apply_update
apply_update-Ensures env u s e = then-Ensures (change (forget_initialized (has_values u))) (
    then-Ensures (change (set_details (apply_config u))) (
      then-Ensures (apply_firewall env u.new_firewall) (
        if-Ensures (has_values u) (apply_values env s) (calls true) e
          (apply_values-Ensures env s))))

as_outcome-success :
    (r : Node × Bool) → (as_outcome r).1 ≡ updated → (r.1 ≡ true) × ((as_outcome r).0 ≡ r.0)
as_outcome-success (node, true) e = (refl, refl)
as_outcome-success (node, false) e = absurd (ground arith)

abbrev Updates : Node × UpdateOutcome → Type 0
Updates r = r.1 ≡ updated → IsInitialized r.0

unless-initialized :
    (env : Update) (u : ConfigUpdate) (s : VmStatus) (found : Option Bool) (node : Node)
    → has_values u ≡ true
    → Updates (update_unless env u s found node)
unfolding update_unless
unless-initialized env u s none node v e = absurd (ground arith)
unless-initialized env u s (some true) node v e = absurd (ground arith)
unless-initialized env u s (some false) node v e =
    let (success, same) = as_outcome-success (apply_update env u s node) e in
    subst IsInitialized (sym same) ((apply_update-Ensures env u s v).ensured node success)

update_as-initialized :
    (env : Update) (u : ConfigUpdate) (s : VmStatus) (node : Node)
    → has_values u ≡ true
    → Updates (update_as env u s node)
unfolding update_as
update_as-initialized env u failed node v = λ e. absurd (ground arith)
update_as-initialized env u running node v =
    unless-initialized env u running (is_blocked env u running) node v
update_as-initialized env u stopped node v =
    unless-initialized env u stopped (is_blocked env u stopped) node v
update_as-initialized env u busy node v =
    unless-initialized env u busy (is_blocked env u busy) node v

-- After an update with new values that is successful, whether the node was ever initialized or not,
-- the next start does not run the `init` of the plugin: it is the same whether that would fail.
pub update-start :
    (env : Update) (u : ConfigUpdate) (node node' : Node) (next : Start) (inits : Bool)
    → has_values u ≡ true
    → update env u node ≡ (node', updated)
    → start next node' ≡ start (record next { inits = inits }) node'
unfolding update
update-start env u node node' next inits v h =
    let initialized : IsInitialized node' =
      subst (λ (r : Node × UpdateOutcome). IsInitialized r.0) h
        (update_as-initialized env u (status node) node v (ap (λ r. r.1) h)) in
    (start-agree next inits).same node' initialized
