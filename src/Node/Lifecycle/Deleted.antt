-- ===== src/Node/Lifecycle/Deleted.antt =====
-- The cores of a node of bv/src/node.rs that is created and deleted.
use blockvisor.Common.{
  ℕ, ◌≡◌, refl, sym, ap, ◌∙◌, Bool, true, false, Option, none, some, List, arith, if◌then◌else◌, [],
}
use blockvisor.CpuRegistry.{acquire, release}
use blockvisor.CpuRegistry.Owners.{release-acquire}
use blockvisor.NodeState.{NodeState, stopped}
use blockvisor.Node.{Node, ◌then◌, save_expected_status}
use blockvisor.Node.Keeps.{
  Keeps, keeps, ◌and_then◌, kept, save_expected_status-keeps, then-succeeds, then-second,
}
use blockvisor.Node.Attempt.{Host, with_node, set_cpus, assigned}
use blockvisor.Node.Lifecycle.{
  Creation, Deletion, try_create, create, create_with, delete, delete_machine, clean_host,
  release_assigned,
}

abbrev pub cpus_of : Host → List ℕ × List ℕ
cpus_of host = (assigned host, host.registry)

with_node-cpus :
    (host : Host) (r : Node × Bool)
    → kept r.0 ≡ kept host.node
    → cpus_of (with_node host r).0 ≡ cpus_of host
with_node-cpus host (node, success) h = ap (λ k. (k.1.0, host.registry)) h

delete_machine-keeps : (env : Deletion) → Keeps cpus_of (delete_machine env)
delete_machine-keeps env =
    keeps (λ host.
      with_node-cpus host (save_expected_status env.saves_status stopped host.node)
        ((save_expected_status-keeps env.saves_status stopped).kept_by host.node))
    and_then keeps (λ host. refl)
    and_then keeps (λ host. refl)

clean_host-keeps : (env : Deletion) → Keeps cpus_of (clean_host env)
clean_host-keeps env = keeps (λ host. refl) and_then keeps (λ host. refl)

delete-registry :
    (env : Deletion) (host : Host)
    → (delete env host).1 ≡ true
    → cpus_of (delete env host).0 ≡ ([], release (assigned host) host.registry)
unfolding delete
delete-registry env host e =
    let rest = release_assigned then clean_host env in
    let before = (delete_machine env host).0 in
    ap (λ r. cpus_of r.0) (then-succeeds (delete_machine env) rest host e)
    ∙ then-second release_assigned (clean_host-keeps env) before
    ∙ ap (λ cpus. ([], release cpus.0 cpus.1)) ((delete_machine-keeps env).kept_by host)

abbrev cpus_or_none : Option NodeState → List ℕ
cpus_or_none none = []
cpus_or_none (some state) = state.assigned_cpus

if-made :
    (success : Bool) (made : NodeState) (registry rest cpus left : List ℕ) (state : NodeState)
    → release cpus left ≡ registry
    → ◌≡◌ {A = List ℕ × Option NodeState}
        (if success then (left, some (set_cpus cpus state)) else (release cpus left, none))
        (rest, some made)
    → release made.assigned_cpus rest ≡ registry
if-made true made registry rest cpus left state parts h =
    sym (ap (λ r. release (cpus_or_none r.1) r.0) h) ∙ parts
if-made false made registry rest cpus left state parts h = absurd (ground (arith, ap (λ r. r.1) h))

create_with-release :
    (env : Creation) (state made : NodeState) (registry rest : List ℕ)
    (found : Option (List ℕ × List ℕ))
    → acquire state.details.vm_config.vcpu_count registry ≡ found
    → create_with env state registry found ≡ (rest, some made)
    → release made.assigned_cpus rest ≡ registry
create_with-release env state made registry rest none a h = absurd (ground (arith, ap (λ r. r.1) h))
create_with-release env state made registry rest (some (cpus, left)) a h =
    let (_, parts) = release-acquire state.details.vm_config.vcpu_count registry cpus left a in
    if-made (try_create env) made registry rest cpus left state parts h

-- When a node that was created is deleted, whatever the registry was, the registry is again as it was
-- before the node was created, and the node is left without cores.
pub delete-create :
    (creation : Creation) (deletion : Deletion) (state : NodeState) (registry rest : List ℕ)
    (node : Node)
    → create creation state registry ≡ (rest, some node.state)
    → (delete deletion (record { node = node; registry = rest })).1 ≡ true
    → cpus_of (delete deletion (record { node = node; registry = rest })).0 ≡ ([], registry)
unfolding create
delete-create creation deletion state registry rest node h e =
    delete-registry deletion (record { node = node; registry = rest }) e
    ∙ ap (λ r. ([], r))
        (create_with-release creation state node.state registry rest
          (acquire state.details.vm_config.vcpu_count registry) refl h)
