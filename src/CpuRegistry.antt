-- ===== src/CpuRegistry.antt =====
-- bv/src/cpu_registry.rs: the processor cores of a host that no node has. The lock makes each call
-- one step.
use blockvisor.Common.{
  ℕ, zero, suc, ◌+◌, ◌-◌, Bool, true, false, not, Option, none, some, List, [], ◌∷◌, ◌++◌, ltb,
  ◌==◌, length, drop, any, retain, take,
}
pub mod Owners

abbrev pub below : ℕ → List ℕ
below zero = []
below (suc n) = below n ++ n ∷ []

-- `CpuRegistry::new`.
unfoldable pub new_registry : ℕ → List ℕ
new_registry available_cpus = below available_cpus

abbrev pub drain : Bool → ℕ → List ℕ → Option (List ℕ × List ℕ)
drain true from registry = none
drain false from registry = some (drop from registry, take from registry)

-- What is drained from the end, and what is left; `none` is an error.
unfoldable pub acquire : ℕ → List ℕ → Option (List ℕ × List ℕ)
acquire count registry = drain (ltb (length registry) count) (length registry - count) registry

unfoldable pub mark_acquired : List ℕ → List ℕ → List ℕ
mark_acquired cpus registry = retain (λ cpu. not (any (λ c. c == cpu) cpus)) registry

unfoldable pub release : List ℕ → List ℕ → List ℕ
release cpus registry = registry ++ cpus
