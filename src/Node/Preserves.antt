-- ===== src/Node/Preserves.antt =====
-- What the operations of bv/src/node.rs preserve.
use blockvisor.Common.{Bool, true, false, if◌then◌else◌}
use blockvisor.Node.{OpOf, ◌then◌, after, choose}

pub record Preserves {A : Type 0} (P : A → Type 0) (op : OpOf A) : Type 0 where
  pub preserved : (a : A) → P a → P (op a).0

pub preserves :
    {A : Type 0} {P : A → Type 0} {op : OpOf A} → ((a : A) → P a → P (op a).0) → Preserves P op
preserves h = record { preserved = h }

module _ {A : Type 0} {P : A → Type 0} where
  after-Preserves : (op : OpOf A) (r : A × Bool) → Preserves P op → P r.0 → P (after op r).0
  after-Preserves op (a, true) h p = h.preserved a p
  after-Preserves op (a, false) h p = p

  infixr 20 ◌with_then◌
  pub ◌with_then◌ :
      {first second : OpOf A}
      → Preserves P first
      → Preserves P second
      → Preserves P (first then second)
  unfolding ◌then◌
  ◌with_then◌ {first} {second} h k =
      preserves (λ a p. after-Preserves second (first a) k (h.preserved a p))

  if-Preserves :
      (b : Bool) (a : A) {first second : OpOf A}
      → Preserves P first
      → Preserves P second
      → P a
      → P (if b then first a else second a).0
  if-Preserves true a h k = h.preserved a
  if-Preserves false a h k = k.preserved a

  pub choose-Preserves :
      {first second : OpOf A} (test : A → Bool)
      → Preserves P first
      → Preserves P second
      → Preserves P (choose test first second)
  unfolding choose
  choose-Preserves test h k = preserves (λ a. if-Preserves (test a) a h k)
