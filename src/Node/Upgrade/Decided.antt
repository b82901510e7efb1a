-- ===== src/Node/Upgrade/Decided.antt =====
-- What `try_upgrade` of bv/src/node.rs decides on the cores, also where it is called again.
use blockvisor.Common.{
  ℕ, ◌-◌, ◌<◌, ◌≡◌, refl, sym, ap, subst, ◌∙◌, ◌≢◌, ◌⊎◌, inl, inr, Bool, true, false, Option, none,
  some, List, [], ◌∷◌, ◌++◌, arith, ltb, ◌==◌, if◌then◌else◌, length, length-append, length-take,
}
use blockvisor.CpuRegistry.{acquire}
use blockvisor.CpuRegistry.Owners.{release-acquire}
use blockvisor.NodeState.{
  UpgradeStep, acquired_cpus, stop_step, cpu_assignment, vm_step, plugin_step, firewall_step,
  restart_step, find_cpus,
}
use blockvisor.Node.{Node, Op, ◌then◌, choose, save_state}
use blockvisor.Node.{Node, Op, ◌then◌, choose, save_state}
use blockvisor.Node.Keeps.{Keeps, keeps, then-second, save_state-keeps}
use blockvisor.Node.Attempt.{
  HostOp, on_node, with_node, Host, Upgrade, try_upgrade, update_cpus, assign_cpus, give_cpus,
  take_cpus, add_acquired, assigned, wanted,
}
use blockvisor.Node.Rollback.{undo_cpus}
use blockvisor.Node.Upgrade.Undo.{Plan, plan, whole, on_node-whole, kept-plan, try_steps-keeps}
use blockvisor.Node.Upgrade.Assigned.{
  NoCpus, Plain, Found, pushed, find_cpus-assigned, plain, give_cpus-whole, take_cpus-whole,
  nothing-undone,
}

-- The wanted number is assigned, or so many cores were to be acquired, and were not.
abbrev pub DecidedPlan : Plan → Type 0
DecidedPlan p =
    (length p.1.0 ≡ p.0.vm_config.vcpu_count)
    ⊎ ((p.1.1.1 ≡ acquired_cpus (length p.1.0)) × (length p.1.0 < p.0.vm_config.vcpu_count))

abbrev pub Decided : Host → Type 0
Decided host = DecidedPlan (plan host.node)

abbrev pub Planned : Host → Type 0
Planned host = NoCpus host ⊎ Decided host

add_acquired-Decided :
    (host : Host) (found : Option (List ℕ × List ℕ))
    → Found host
    → length (assigned host) < wanted host
    → acquire (wanted host - length (assigned host)) host.registry ≡ found
    → Decided (add_acquired found (pushed host)).0
add_acquired-Decided host none f less e = inr (f, less)
add_acquired-Decided host (some (cpus, rest)) f less e =
    let n = wanted host - length (assigned host) in
    let (size, _) = release-acquire n host.registry cpus rest e in
    inl (omega (arith, size, less, length-append (assigned host) cpus))

take_cpus-Decided :
    (host : Host)
    → Found host
    → length (assigned host) < wanted host
    → Decided (take_cpus (wanted host) (assigned host) host).0
unfolding take_cpus ◌then◌
take_cpus-Decided host f less =
    add_acquired-Decided host (acquire (wanted host - length (assigned host)) host.registry) f less
      refl

give_cpus-Decided :
    (host : Host)
    → ltb (wanted host) (length (assigned host)) ≡ true
    → Decided (give_cpus (wanted host) (assigned host) host).0
unfolding give_cpus ◌then◌
give_cpus-Decided host h = inl (ground (arith, length-take (wanted host) (assigned host)))

-- What is the same once the assignment is undone, with the assignment decided.
abbrev pub Assigns : Host → Host → Type 0
Assigns before host = (whole host ≡ whole before) × Decided host

if-Assigns :
    (b : Bool) (before : Host) (x y : Host × Bool)
    → (b ≡ true → Assigns before x.0)
    → (b ≡ false → Assigns before y.0)
    → Assigns before (if b then x else y).0
if-Assigns true before x y h k = h refl
if-Assigns false before x y h k = k refl

found : (host : Host) → NoCpus host → Found host
found host h =
    find_cpus-assigned host.node.state.upgrade_state.steps (acquired_cpus (length (assigned host)))
      h

found_before :
    (n : ℕ) (steps more : List UpgradeStep)
    → find_cpus steps ≡ acquired_cpus n
    → find_cpus (steps ++ more) ≡ acquired_cpus n
found_before n [] more h = absurd (ground arith)
found_before n (stop_step ∷ steps) more h = found_before n steps more h
found_before n (cpu_assignment cpus ∷ steps) more h = h
found_before n (vm_step ∷ steps) more h = found_before n steps more h
found_before n (plugin_step ∷ steps) more h = found_before n steps more h
found_before n (firewall_step ∷ steps) more h = found_before n steps more h
found_before n (restart_step ∷ steps) more h = found_before n steps more h

assign_cpus-Assigns :
    (host : Host)
    → length (assigned host) ≢ wanted host
    → Planned host
    → Assigns host (assign_cpus host).0
unfolding assign_cpus choose
assign_cpus-Assigns host other (inl none_yet) =
    if-Assigns (ltb (wanted host) (length (assigned host))) host
      (give_cpus (wanted host) (assigned host) host) (take_cpus (wanted host) (assigned host) host)
      (λ more. ((give_cpus-whole (wanted host) host none_yet).kept_at, give_cpus-Decided host more))
      (λ less. (
        (take_cpus-whole (wanted host) host (found host none_yet) (plain host none_yet)).kept_at,
        take_cpus-Decided host (found host none_yet) (ground arith),
      ))
assign_cpus-Assigns host other (inr (inl same)) = absurd (other same)
assign_cpus-Assigns host other (inr (inr (before, less))) =
    let steps = host.node.state.upgrade_state.steps in
    let n = length (assigned host) in
    let again : Found host = found_before n steps (cpu_assignment (acquired_cpus n) ∷ []) before in
    let plain_host : Plain host =
      ap (λ c. undo_cpus c (assigned host) host.registry) before
      ∙ nothing-undone (assigned host) host.registry in
    if-Assigns (ltb (wanted host) (length (assigned host))) host
      (give_cpus (wanted host) (assigned host) host) (take_cpus (wanted host) (assigned host) host)
      (λ more. absurd (ground arith))
      (λ _. (
        (take_cpus-whole (wanted host) host again plain_host).kept_at,
        take_cpus-Decided host again less,
      ))

with_node-plan : (host : Host) (r : Node × Bool) → plan (with_node host r).0.node ≡ plan r.0
with_node-plan host (node, success) = refl

on_node-plan : {op : Op} → Keeps plan op → Keeps (λ (host : Host). plan host.node) (on_node op)
on_node-plan {op} h = keeps (λ host. with_node-plan host (op host.node) ∙ h.kept_by host.node)

then_Assigns :
    (before host : Host) (first : HostOp) {op : Op}
    → Keeps plan op
    → Assigns before (first host).0
    → Assigns before ((first then on_node op) host).0
then_Assigns before host first h (same, decided) = (
  then-second first (on_node-whole h) host ∙ same,
  subst DecidedPlan (sym (then-second first (on_node-plan h) host)) decided,
)

update_cpus-Assigns :
    (saves : Bool) (host : Host) → Planned host → Assigns host (update_cpus saves host).0
unfolding update_cpus choose
update_cpus-Assigns saves host h =
    if-Assigns (length (assigned host) == wanted host) host (host, true)
      ((assign_cpus then on_node (save_state saves)) host) (λ same. (refl, inl (ground arith)))
      (λ other.
        then_Assigns host host assign_cpus (kept-plan (save_state-keeps saves))
          (assign_cpus-Assigns host (λ same. absurd (ground arith)) h))

pub try_upgrade-Assigns :
    (env : Upgrade) (host : Host) → Planned host → Assigns host (try_upgrade env host).0
unfolding try_upgrade
try_upgrade-Assigns env host h =
    then_Assigns host host (update_cpus env.saves_cpus) (try_steps-keeps env)
      (update_cpus-Assigns env.saves_cpus host h)
