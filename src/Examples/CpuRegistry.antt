-- ===== src/Examples/CpuRegistry.antt =====
-- Four cores and two holders: the theorems on bv/src/cpu_registry.rs at concrete inputs.
use blockvisor.Common.{◌+◌, ◌≡◌, refl, ◌∷◌, ltb, if◌then◌else◌, List, ℕ, []}
use blockvisor.CpuRegistry.{new_registry, acquire, release}
use blockvisor.CpuRegistry.Owners.{
  count, count_held, Cores, acquires, releases, Reachable, at_first, next, Reachable-count,
}

abbrev top_two : List ℕ
top_two = 2 ∷ 3 ∷ []

abbrev one_holder : Cores
one_holder = record { registry = release (2 ∷ 3 ∷ []) (0 ∷ []); held = (1 ∷ []) ∷ [] }

one_holder-Reachable : Reachable 4 one_holder
unfolding acquire new_registry
one_holder-Reachable =
    next
      (next (next at_first (acquires 2 (2 ∷ 3 ∷ []) (0 ∷ 1 ∷ []) refl))
        (acquires 1 (1 ∷ []) (0 ∷ []) refl))
      (releases ((1 ∷ []) ∷ []) (2 ∷ 3 ∷ []) [] refl)

Reachable-count_example :
    count 3 one_holder.registry + count_held 3 one_holder.held ≡ (if ltb 3 4 then 1 else 0)
Reachable-count_example = Reachable-count 4 one_holder 3 one_holder-Reachable
