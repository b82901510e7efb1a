-- ===== src/Node/Upgrade/Sizes.antt =====
-- How many cores `try_upgrade` of bv/src/node.rs assigns.
use blockvisor.Common.{
  ℕ, ◌+◌, ◌-◌, ◌≡◌, refl, ap, ◌∙◌, Bool, true, false, Option, none, some, List, arith, ltb, ◌==◌,
  if◌then◌else◌, length, length-append, length-take,
}
use blockvisor.Node.{Op, ◌then◌, save_state, choose}
use blockvisor.CpuRegistry.{acquire}
use blockvisor.CpuRegistry.Owners.{release-acquire}
use blockvisor.Node.Keeps.{then-first, Keeps, keeps, save_state-keeps, then-second}
use blockvisor.Node.Attempt.{
  wanted, try_steps, update_cpus, assign_cpus, give_cpus, take_cpus, add_acquired, Host, Upgrade,
  on_node, try_upgrade, assigned,
}
use blockvisor.Node.Upgrade.Undo.{plan, try_steps-keeps}
use blockvisor.Node.Upgrade.Restored.{kept-node_view, node_view, on_node-seen}

give_cpus-length :
    (n : ℕ) (host : Host)
    → ltb n (length (assigned host)) ≡ true
    → length (assigned (give_cpus n (assigned host) host).0) ≡ n
unfolding give_cpus ◌then◌
give_cpus-length n host h = ground (arith, length-take n (assigned host))

add_acquired-length :
    (n : ℕ) (host : Host) (found : Option (List ℕ × List ℕ))
    → acquire n host.registry ≡ found
    → (add_acquired found host).1 ≡ true
    → length (assigned (add_acquired found host).0) ≡ length (assigned host) + n
add_acquired-length n host none h e = absurd (ground arith)
add_acquired-length n host (some (cpus, rest)) h e =
    let (size, _) = release-acquire n host.registry cpus rest h in
    omega (arith, size, length-append (assigned host) cpus)

take_cpus-length :
    (n : ℕ) (host : Host)
    → ltb n (length (assigned host)) ≡ false
    → (take_cpus n (assigned host) host).1 ≡ true
    → length (assigned (take_cpus n (assigned host) host).0) ≡ n
unfolding take_cpus ◌then◌
take_cpus-length n host h e =
    let k = n - length (assigned host) in
    let grown = add_acquired-length k _ (acquire k host.registry) refl e in ground (arith, grown)

if-length :
    (b : Bool) (x y : Host × Bool) (n : ℕ)
    → (b ≡ true → x.1 ≡ true → length (assigned x.0) ≡ n)
    → (b ≡ false → y.1 ≡ true → length (assigned y.0) ≡ n)
    → (if b then x else y).1 ≡ true
    → length (assigned (if b then x else y).0) ≡ n
if-length true x y n h k = h refl
if-length false x y n h k = k refl

assign_cpus-length :
    (host : Host)
    → (assign_cpus host).1 ≡ true
    → length (assigned (assign_cpus host).0) ≡ wanted host
unfolding assign_cpus choose
assign_cpus-length host =
    if-length (ltb (wanted host) (length (assigned host)))
      (give_cpus (wanted host) (assigned host) host) (take_cpus (wanted host) (assigned host) host)
      (wanted host) (λ b _. give_cpus-length (wanted host) host b)
      (λ b e. take_cpus-length (wanted host) host b e)

update_cpus-length :
    (saves : Bool) (host : Host)
    → (update_cpus saves host).1 ≡ true
    → length (assigned (update_cpus saves host).0) ≡ wanted host
unfolding update_cpus choose
update_cpus-length saves host =
    let saving = on_node (save_state saves) in
    if-length (length (assigned host) == wanted host) (host, true) ((assign_cpus then saving) host)
      (wanted host) (λ b _. ground arith)
      (λ _ e.
        ap (λ s. length s.1.0)
          (then-second assign_cpus (on_node-seen (kept-node_view (save_state-keeps saves))) host)
        ∙ assign_cpus-length host (then-first assign_cpus saving host e))

plan-node_view : {op : Op} → Keeps plan op → Keeps node_view op
plan-node_view h = keeps (λ node. ap (λ p. (p.0, p.1.0)) (h.kept_by node))

pub try_upgrade-length :
    (env : Upgrade) (host : Host)
    → (try_upgrade env host).1 ≡ true
    → length (assigned (try_upgrade env host).0) ≡ wanted host
unfolding try_upgrade
try_upgrade-length env host e =
    let first = update_cpus env.saves_cpus in
    let rest = on_node (try_steps env) in
    ap (λ s. length s.1.0)
      (then-second first (on_node-seen (plan-node_view (try_steps-keeps env))) host)
    ∙ update_cpus-length env.saves_cpus host (then-first first rest host e)
