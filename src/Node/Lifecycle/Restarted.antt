-- ===== src/Node/Lifecycle/Restarted.antt =====
-- The cores of the host of bv/src/node.rs once its nodes are found again.
use blockvisor.Common.{
  [], ℕ, ◌+◌, ◌≤◌, ◌≡◌, refl, ap, Bool, true, false, List, ◌∷◌, ◌++◌, map, arith, ltb, leb, ◌==◌,
  if◌then◌else◌, any,
}
use blockvisor.CpuRegistry.{new_registry, mark_acquired}
use blockvisor.CpuRegistry.Owners.{count, count_held, count-append, count-below}
use blockvisor.NodeState.{
  NodeState, UpgradeStep, no_update, acquired_cpus, released_cpus, stop_step, cpu_assignment,
  vm_step, plugin_step, firewall_step, restart_step, find_cpus,
}
use blockvisor.Node.Lifecycle.{released_of, pending_cpus, attach_cpus, attach_all}

-- The cores that the first assignment among the steps of an upgrade has taken from the node.
abbrev pub taken : List UpgradeStep → List ℕ
taken [] = []
taken (cpu_assignment (released_cpus cpus) ∷ steps) = cpus
taken (cpu_assignment no_update ∷ steps) = []
taken (cpu_assignment (acquired_cpus n) ∷ steps) = []
taken (stop_step ∷ steps) = taken steps
taken (vm_step ∷ steps) = taken steps
taken (plugin_step ∷ steps) = taken steps
taken (firewall_step ∷ steps) = taken steps
taken (restart_step ∷ steps) = taken steps

-- While an upgrade goes on, the node still holds the cores that its steps have taken.
abbrev pub taken_if : Bool → List UpgradeStep → List ℕ
taken_if true steps = taken steps
taken_if false steps = []

abbrev pub held_by : NodeState → List ℕ
held_by state = state.assigned_cpus ++ taken_if state.upgrade_state.active state.upgrade_state.steps

released_of-find_cpus : (steps : List UpgradeStep) → released_of (find_cpus steps) ≡ taken steps
released_of-find_cpus [] = refl
released_of-find_cpus (cpu_assignment (released_cpus cpus) ∷ steps) = refl
released_of-find_cpus (cpu_assignment no_update ∷ steps) = refl
released_of-find_cpus (cpu_assignment (acquired_cpus n) ∷ steps) = refl
released_of-find_cpus (stop_step ∷ steps) = released_of-find_cpus steps
released_of-find_cpus (vm_step ∷ steps) = released_of-find_cpus steps
released_of-find_cpus (plugin_step ∷ steps) = released_of-find_cpus steps
released_of-find_cpus (firewall_step ∷ steps) = released_of-find_cpus steps
released_of-find_cpus (restart_step ∷ steps) = released_of-find_cpus steps

if-taken :
    (active : Bool) (steps : List UpgradeStep)
    → (if active then released_of (find_cpus steps) else []) ≡ taken_if active steps
if-taken true steps = released_of-find_cpus steps
if-taken false steps = refl

pending_cpus-taken :
    (state : NodeState)
    → pending_cpus state ≡ taken_if state.upgrade_state.active state.upgrade_state.steps
pending_cpus-taken state = if-taken state.upgrade_state.active state.upgrade_state.steps

any-count : (c : ℕ) (cpus : List ℕ) → any (λ k. k == c) cpus ≡ leb 1 (count c cpus)
any-count c [] = refl
any-count c (k ∷ cpus) = ground (arith, any-count c cpus)

mark_acquired-count :
    (c : ℕ) (cpus registry : List ℕ)
    → count c (mark_acquired cpus registry) ≡ (if leb 1 (count c cpus) then 0 else count c registry)
unfolding mark_acquired
mark_acquired-count c cpus [] = ground arith
mark_acquired-count c cpus (x ∷ registry) =
    ground (arith, any-count x cpus, mark_acquired-count c cpus registry)

attach_cpus-count :
    (c : ℕ) (state : NodeState) (registry : List ℕ)
    → count c (attach_cpus state registry)
      ≡ (if leb 1 (count c (held_by state)) then 0 else count c registry)
unfolding attach_cpus
attach_cpus-count c state registry = ground (
  arith,
  ap (count c) (pending_cpus-taken state),
  count-append c state.assigned_cpus
      (taken_if state.upgrade_state.active state.upgrade_state.steps),
  mark_acquired-count c state.assigned_cpus registry,
  mark_acquired-count c (pending_cpus state) (mark_acquired state.assigned_cpus registry),
)

attach_all-count :
    (c : ℕ) (states : List NodeState) (registry : List ℕ)
    → count c (attach_all states registry)
      ≡ (if leb 1 (count_held c (map held_by states)) then 0 else count c registry)
unfolding attach_all
attach_all-count c [] registry = ground arith
attach_all-count c (state ∷ states) registry = ground (
  arith,
  attach_all-count c states (attach_cpus state registry),
  attach_cpus-count c state registry,
)

-- A node holds its assigned cores, and while an upgrade goes on those that a step of it has taken from
-- them. Where the nodes hold each core of the host at most once, and no other core, each core is there
-- once when they were found again: it is in the registry or one node holds it.
pub attach_all-once :
    (available_cpus : ℕ) (states : List NodeState)
    → ((c : ℕ) → count_held c (map held_by states) ≤ (if ltb c available_cpus then 1 else 0))
    → (c : ℕ)
    → count c (attach_all states (new_registry available_cpus)) + count_held c (map held_by states)
      ≡ (if ltb c available_cpus then 1 else 0)
unfolding new_registry
attach_all-once available_cpus states once c = ground (
  arith,
  once c,
  attach_all-count c states (new_registry available_cpus),
  count-below c available_cpus,
)
