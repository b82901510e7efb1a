-- ===== src/Node/Upgrade/Assigned.antt =====
-- Why the cores that `try_upgrade` of bv/src/node.rs assigns can be taken back.
use blockvisor.Common.{
  ℕ, ◌-◌, ◌≡◌, refl, sym, ap, ◌∙◌, false, Option, none, some, List, [], ◌∷◌, ◌++◌, append-nil,
  arith, length, drop, take-append-drop, take-length, drop-length, any, take,
}
use blockvisor.CpuRegistry.{acquire, release}
use blockvisor.CpuRegistry.Owners.{release-acquire}
use blockvisor.NodeState.{
  UpgradeStep, CpuAssignmentUpdate, no_update, acquired_cpus, released_cpus, stop_step,
  cpu_assignment, vm_step, plugin_step, firewall_step, restart_step, is_cpu_assignment, push_step,
  find_cpus,
}
use blockvisor.Node.{◌then◌}
use blockvisor.Node.{◌then◌}
use blockvisor.Node.Keeps.{KeepsAt, mask}
use blockvisor.Node.Attempt.{Host, set_cpus, give_cpus, take_cpus, add_acquired, assigned}
use blockvisor.Node.Rollback.{undo_cpus, undone_cpus}
use blockvisor.Node.Upgrade.Undo.{ledger, whole}

pub find_cpus-assigned :
    (steps : List UpgradeStep) (cpus : CpuAssignmentUpdate)
    → any is_cpu_assignment steps ≡ false
    → find_cpus (steps ++ cpu_assignment cpus ∷ []) ≡ cpus
find_cpus-assigned [] cpus h = refl
find_cpus-assigned (stop_step ∷ steps) cpus h = find_cpus-assigned steps cpus h
find_cpus-assigned (cpu_assignment _ ∷ steps) cpus h = absurd (ground arith)
find_cpus-assigned (vm_step ∷ steps) cpus h = find_cpus-assigned steps cpus h
find_cpus-assigned (plugin_step ∷ steps) cpus h = find_cpus-assigned steps cpus h
find_cpus-assigned (firewall_step ∷ steps) cpus h = find_cpus-assigned steps cpus h
find_cpus-assigned (restart_step ∷ steps) cpus h = find_cpus-assigned steps cpus h

pub find_cpus-none :
    (steps : List UpgradeStep) → any is_cpu_assignment steps ≡ false → find_cpus steps ≡ no_update
find_cpus-none [] h = refl
find_cpus-none (stop_step ∷ steps) h = find_cpus-none steps h
find_cpus-none (cpu_assignment _ ∷ steps) h = absurd (ground arith)
find_cpus-none (vm_step ∷ steps) h = find_cpus-none steps h
find_cpus-none (plugin_step ∷ steps) h = find_cpus-none steps h
find_cpus-none (firewall_step ∷ steps) h = find_cpus-none steps h
find_cpus-none (restart_step ∷ steps) h = find_cpus-none steps h

abbrev pub NoCpus : Host → Type 0
NoCpus host = any is_cpu_assignment host.node.state.upgrade_state.steps ≡ false

abbrev pub Plain : Host → Type 0
Plain host = undone_cpus host ≡ (assigned host, host.registry)

pub plain : (host : Host) → NoCpus host → Plain host
plain host h =
    ap (λ found. undo_cpus found (assigned host) host.registry)
      (find_cpus-none host.node.state.upgrade_state.steps h)

pushed-whole :
    (host : Host) (cpus : CpuAssignmentUpdate) (left registry : List ℕ)
    → find_cpus (host.node.state.upgrade_state.steps ++ cpu_assignment cpus ∷ []) ≡ cpus
    → Plain host
    → undo_cpus cpus left registry ≡ (assigned host, host.registry)
    → whole (record {
      node = record host.node {
        state = set_cpus left (push_step (cpu_assignment cpus) host.node.state);
      };
      registry = registry;
    })
      ≡ whole host
pushed-whole host cpus left registry found plain_host undone =
    ap (λ parts. (mask host.node.state.details, (ledger host.node.state.upgrade_state, parts)))
      (ap (λ c. undo_cpus c left registry) found ∙ undone ∙ sym plain_host)

pub give_cpus-whole :
    (n : ℕ) (host : Host) → NoCpus host → KeepsAt whole (λ h. give_cpus n (assigned h) h) host
unfolding give_cpus ◌then◌
give_cpus-whole n host h = record {
  kept_at =
      pushed-whole host (released_cpus (drop n (assigned host))) (take n (assigned host))
        host.registry
        (find_cpus-assigned host.node.state.upgrade_state.steps
          (released_cpus (drop n (assigned host))) h)
        (plain host h) (ap (λ cpus. (cpus, host.registry)) (take-append-drop n (assigned host)));
}

split-append :
    (xs ys : List ℕ)
    → ◌≡◌ {A = List ℕ × List ℕ} (take (length xs) (xs ++ ys), drop (length xs) (xs ++ ys)) (xs, ys)
split-append [] ys = refl
split-append (x ∷ xs) ys = ap (λ parts. (x ∷ parts.0, parts.1)) (split-append xs ys)

acquired-undone :
    (n : ℕ) (before registry cpus rest : List ℕ)
    → acquire n registry ≡ some (cpus, rest)
    → undo_cpus (acquired_cpus (length before)) (before ++ cpus) rest ≡ (before, registry)
acquired-undone n before registry cpus rest h =
    let (_, parts) = release-acquire n registry cpus rest h in
    ap (λ split. (split.0, release split.1 rest)) (split-append before cpus)
    ∙ ap (λ r. (before, r)) parts

pub nothing-undone :
    (before registry : List ℕ)
    → undo_cpus (acquired_cpus (length before)) before registry ≡ (before, registry)
unfolding release
nothing-undone before registry =
    ap (λ xs. (xs, registry ++ drop (length before) before)) (take-length before)
    ∙ ap (λ ys. (before, registry ++ ys)) (drop-length before)
    ∙ ap (λ r. (before, r)) (append-nil registry)

-- Where cores are acquired, the first assignment of cores is what is pushed now, or was before.
abbrev pub Found : Host → Type 0
Found host =
    find_cpus (
      host.node.state.upgrade_state.steps
      ++ cpu_assignment (acquired_cpus (length (assigned host))) ∷ [])
    ≡ acquired_cpus (length (assigned host))

abbrev pub pushed : Host → Host
pushed host = record host {
  node = record host.node {
    state = push_step (cpu_assignment (acquired_cpus (length (assigned host)))) host.node.state;
  };
}

add_acquired-whole :
    (n : ℕ) (host : Host) (found : Option (List ℕ × List ℕ))
    → Found host
    → Plain host
    → acquire n host.registry ≡ found
    → whole (add_acquired found (pushed host)).0 ≡ whole host
add_acquired-whole n host none f h e =
    pushed-whole host (acquired_cpus (length (assigned host))) (assigned host) host.registry f h
      (nothing-undone (assigned host) host.registry)
add_acquired-whole n host (some (cpus, rest)) f h e =
    pushed-whole host (acquired_cpus (length (assigned host))) (assigned host ++ cpus) rest f h
      (acquired-undone n (assigned host) host.registry cpus rest e)

pub take_cpus-whole :
    (n : ℕ) (host : Host)
    → Found host
    → Plain host
    → KeepsAt whole (λ h. take_cpus n (assigned h) h) host
unfolding take_cpus ◌then◌
take_cpus-whole n host f h =
    let wanting = n - length (assigned host) in
    record { kept_at = add_acquired-whole wanting host (acquire wanting host.registry) f h refl }
