-- ===== src/Node/Keeps.antt =====
-- What the operations of bv/src/node.rs leave as it is.
use blockvisor.Common.{ℕ, ◌≡◌, refl, ◌∙◌, Bool, true, false, ◌&&◌, ◌||◌, List, arith, if◌then◌else◌}
use blockvisor.NodeState.{
  StateBackup, UpgradeState, VmStatus, VmState, running, stopped, failed, busy, vm_running,
  vm_shutoff, vm_invalid,
}
use blockvisor.Node.{
  Node, OpOf, Start, Stop, ◌then◌, after, save_state, save_expected_status, status, same_status,
  start, stop, choose, switch_off, start_machine_in, connect, init_unless, start_stopped, start_as,
  stop_machine_in, stop_running,
}

pub record Keeps {A B : Type 0} (f : A → B) (op : OpOf A) : Type 0 where
  pub kept_by : (a : A) → f (op a).0 ≡ f a

pub keeps : {A B : Type 0} {f : A → B} {op : OpOf A} → ((a : A) → f (op a).0 ≡ f a) → Keeps f op
keeps h = record { kept_by = h }

-- The same, from one state.
pub record KeepsAt {A B : Type 0} (f : A → B) (op : OpOf A) (a : A) : Type 0 where
  pub kept_at : f (op a).0 ≡ f a

after-succeeds :
    {A : Type 0} (op : OpOf A) (r : A × Bool) → (after op r).1 ≡ true → after op r ≡ op r.0
after-succeeds op (a, true) e = refl
after-succeeds op (a, false) e = absurd (ground arith)

after-first : {A : Type 0} (op : OpOf A) (r : A × Bool) → (after op r).1 ≡ true → r.1 ≡ true
after-first op (a, true) e = refl
after-first op (a, false) e = absurd (ground arith)

pub then-first :
    {A : Type 0} (first second : OpOf A) (a : A)
    → ((first then second) a).1 ≡ true
    → (first a).1 ≡ true
unfolding ◌then◌
then-first first second a = after-first second (first a)

-- Where both are successful, the second was done after the first.
pub then-succeeds :
    {A : Type 0} (first second : OpOf A) (a : A)
    → ((first then second) a).1 ≡ true
    → (first then second) a ≡ second (first a).0
unfolding ◌then◌
then-succeeds first second a = after-succeeds second (first a)

module _ {A B : Type 0} {f : A → B} where
  after-keeps : (op : OpOf A) (r : A × Bool) → Keeps f op → f (after op r).0 ≡ f r.0
  after-keeps op (a, true) h = h.kept_by a
  after-keeps op (a, false) h = refl

  infixr 20 ◌and_then◌
  pub ◌and_then◌ :
      {first second : OpOf A} → Keeps f first → Keeps f second → Keeps f (first then second)
  unfolding ◌then◌
  ◌and_then◌ {first} {second} h k = keeps (λ a. after-keeps second (first a) k ∙ h.kept_by a)

  pub then-second :
      (first : OpOf A) {second : OpOf A}
      → Keeps f second
      → (a : A) → f ((first then second) a).0 ≡ f (first a).0
  unfolding ◌then◌
  then-second first {second} h a = after-keeps second (first a) h

  if-keeps :
      (b : Bool) (a : A) {first second : OpOf A}
      → Keeps f first
      → Keeps f second
      → f (if b then first a else second a).0 ≡ f a
  if-keeps true a h k = h.kept_by a
  if-keeps false a h k = k.kept_by a

  pub choose-keeps :
      {first second : OpOf A} (test : A → Bool)
      → Keeps f first
      → Keeps f second
      → Keeps f (choose test first second)
  unfolding choose
  choose-keeps test h k = keeps (λ a. if-keeps (test a) a h k)

  pub then_at :
      {first second : OpOf A} {a : A}
      → KeepsAt f first a
      → Keeps f second
      → KeepsAt f (first then second) a
  unfolding ◌then◌
  then_at {first} {second} {a} h k = record { kept_at = after-keeps second (first a) k ∙ h.kept_at }

  if-at :
      (b : Bool) {first second : OpOf A} {a : A}
      → KeepsAt f first a
      → KeepsAt f second a
      → f (if b then first a else second a).0 ≡ f a
  if-at true h k = h.kept_at
  if-at false h k = k.kept_at

  pub choose_at :
      {first second : OpOf A} (test : A → Bool) {a : A}
      → KeepsAt f first a
      → KeepsAt f second a
      → KeepsAt f (choose test first second) a
  unfolding choose
  choose_at test {a} h k = record { kept_at = if-at (test a) h k }

-- The details but for whether the node is initialized, the cores, and the upgrade.
abbrev pub mask : StateBackup → StateBackup
mask details = record details { initialized = true }

abbrev pub kept : Node → StateBackup × (List ℕ × UpgradeState)
kept node = (mask node.state.details, (node.state.assigned_cpus, node.state.upgrade_state))

pub save_state-keeps : (saves : Bool) → Keeps kept (save_state saves)
save_state-keeps true = keeps (λ node. refl)
save_state-keeps false = keeps (λ node. refl)

pub save_expected_status-keeps :
    (saves : Bool) (s : VmStatus) → Keeps kept (save_expected_status saves s)
save_expected_status-keeps saves s = keeps (λ node. refl) and_then save_state-keeps saves

start_machine-keeps : (success : Bool) (vm : VmState) → Keeps kept (start_machine_in success vm)
start_machine-keeps true vm_shutoff = keeps (λ node. refl)
start_machine-keeps false vm_shutoff = keeps (λ node. refl)
start_machine-keeps success vm_running = keeps (λ node. refl)
start_machine-keeps success vm_invalid = keeps (λ node. refl)

connect-keeps : (success : Bool) → Keeps kept (connect success)
connect-keeps true = keeps (λ node. refl)
connect-keeps false = keeps (λ node. refl)

init-keeps : (initialized inits : Bool) → Keeps kept (init_unless initialized inits)
init-keeps true inits = keeps (λ node. refl)
init-keeps false true = keeps (λ node. refl)
init-keeps false false = keeps (λ node. refl)

switch_off-keeps : (env : Stop) → Keeps kept (switch_off env)
unfolding switch_off
switch_off-keeps env =
    choose-keeps (λ node. (env.shuts_down || env.forced_shut_down) && env.in_time)
      (keeps (λ node. refl)) (keeps (λ node. refl))

stop_machine-keeps : (env : Stop) (vm : VmState) → Keeps kept (stop_machine_in env vm)
stop_machine-keeps env vm_shutoff = keeps (λ node. refl)
stop_machine-keeps env vm_running = switch_off-keeps env
stop_machine-keeps env vm_invalid = switch_off-keeps env

start_stopped-keeps : (env : Start) → Keeps kept (start_stopped env)
unfolding start_stopped
start_stopped-keeps env =
    keeps (λ node. refl)
    and_then keeps (λ node. (start_machine-keeps env.machine_starts node.vm).kept_by node)
    and_then connect-keeps env.connects
    and_then keeps (λ node. refl)
    and_then keeps (λ node. (init-keeps node.state.details.initialized env.inits).kept_by node)
    and_then keeps (λ node. refl)
    and_then save_state-keeps env.saves_started

start_as-keeps : (env : Start) (s : VmStatus) → Keeps kept (start_as env s)
unfolding start_as
start_as-keeps env running = save_expected_status-keeps env.saves_status running
start_as-keeps env stopped =
    save_expected_status-keeps env.saves_status running and_then start_stopped-keeps env
start_as-keeps env failed =
    save_expected_status-keeps env.saves_status running and_then start_stopped-keeps env
start_as-keeps env busy =
    save_expected_status-keeps env.saves_status running and_then start_stopped-keeps env

pub start-keeps : (env : Start) → Keeps kept (start env)
unfolding start
start-keeps env =
    choose-keeps
      (λ node. same_status (status node) failed && same_status node.state.expected_status stopped)
      (keeps (λ node. refl)) (keeps (λ node. (start_as-keeps env (status node)).kept_by node))

stop_running-keeps : (env : Stop) (force : Bool) → Keeps kept (stop_running env force)
unfolding stop_running
stop_running-keeps env force =
    keeps (λ node. refl)
    and_then keeps (λ node. refl)
    and_then keeps (λ node. refl)
    and_then save_state-keeps env.saves_stopped
    and_then keeps (λ node. (stop_machine-keeps env node.vm).kept_by node)
    and_then keeps (λ node. refl)

pub stop-keeps : (env : Stop) (force : Bool) → Keeps kept (stop env force)
unfolding stop
stop-keeps env force =
    save_expected_status-keeps env.saves_status stopped
    and_then choose-keeps (λ node. same_status (status node) stopped) (keeps (λ node. refl))
        (stop_running-keeps env force)
