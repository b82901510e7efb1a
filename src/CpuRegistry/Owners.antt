-- ===== src/CpuRegistry/Owners.antt =====
-- Each core of bv/src/cpu_registry.rs is free, or one holder's.
use blockvisor.Common.{
  ℕ, zero, suc, ◌+◌, ◌-◌, ◌≤◌, ◌≡◌, refl, sym, ap, ◌∙◌, Bool, true, false, Option, none, some, List,
  [], ◌∷◌, ◌++◌, arith, ltb, ◌==◌, if◌then◌else◌, length, drop, take-append-drop, take, length-drop,
}
use blockvisor.CpuRegistry.{below, new_registry, acquire, release, drain}

abbrev pub count : ℕ → List ℕ → ℕ
count c [] = 0
count c (x ∷ xs) = (if x == c then 1 else 0) + count c xs

abbrev pub count_held : ℕ → List (List ℕ) → ℕ
count_held c [] = 0
count_held c (cpus ∷ held) = count c cpus + count_held c held

pub count-append : (c : ℕ) (xs ys : List ℕ) → count c (xs ++ ys) ≡ count c xs + count c ys
count-append c [] ys = omega arith
count-append c (x ∷ xs) ys = omega (arith, count-append c xs ys)

count_held-append :
    (c : ℕ) (xs ys : List (List ℕ)) → count_held c (xs ++ ys) ≡ count_held c xs + count_held c ys
count_held-append c [] ys = omega arith
count_held-append c (x ∷ xs) ys = omega (arith, count_held-append c xs ys)

pub count-below : (c n : ℕ) → count c (below n) ≡ (if ltb c n then 1 else 0)
count-below c zero = ground arith
count-below c (suc n) = ground (arith, count-append c (below n) (n ∷ []), count-below c n)

abbrev cpus_or_none : Option (List ℕ × List ℕ) → List ℕ × List ℕ
cpus_or_none none = ([], [])
cpus_or_none (some found) = found

drain-parts :
    (b : Bool) (n : ℕ) (registry cpus rest : List ℕ)
    → ltb (length registry) n ≡ b
    → drain b (length registry - n) registry ≡ some (cpus, rest)
    → (length cpus ≡ n) × (rest ++ cpus ≡ registry)
drain-parts true n registry cpus rest e h = absurd (ground arith)
drain-parts false n registry cpus rest e h =
    let from = length registry - n in
    let cpus_eq : drop from registry ≡ cpus = ap (λ o. (cpus_or_none o).0) h in
    let rest_eq : take from registry ≡ rest = ap (λ o. (cpus_or_none o).1) h in
    let enough : n ≤ length registry = ground arith in
    (
      omega (arith, ap length cpus_eq, length-drop from registry),
      ap (λ xs. xs ++ cpus) (sym rest_eq)
          ∙ ap (◌++◌ (take from registry)) (sym cpus_eq)
          ∙ take-append-drop from registry,
    )

-- As many cores are acquired as were asked for, and when they are released again, the registry is as
-- it was.
pub release-acquire :
    (n : ℕ) (registry cpus rest : List ℕ)
    → acquire n registry ≡ some (cpus, rest)
    → (length cpus ≡ n) × (release cpus rest ≡ registry)
unfolding acquire release
release-acquire n registry cpus rest h =
    drain-parts (ltb (length registry) n) n registry cpus rest refl h

-- A registry, and the cores that each of the holders has.
pub record Cores : Type 0 where
  pub registry : List ℕ
  pub held : List (List ℕ)

pub data Step (s : Cores) : Cores → Type 0 where
  acquires :
      (n : ℕ) (cpus rest : List ℕ)
      → acquire n s.registry ≡ some (cpus, rest)
      → Step s (record { registry = rest; held = cpus ∷ s.held })
  releases :
      (before : List (List ℕ)) (cpus : List ℕ) (after : List (List ℕ))
      → s.held ≡ before ++ cpus ∷ after
      → Step s (record { registry = release cpus s.registry; held = before ++ after })

pub data Reachable (available_cpus : ℕ) : Cores → Type 0 where
  at_first : Reachable available_cpus (record { registry = new_registry available_cpus; held = [] })
  next : {s s' : Cores} → Reachable available_cpus s → Step s s' → Reachable available_cpus s'

step_count :
    (c : ℕ) {s s' : Cores}
    → Step s s'
    → count c s'.registry + count_held c s'.held ≡ count c s.registry + count_held c s.held
unfolding release
step_count c {s} (acquires n cpus rest h) =
    let (_, parts) = release-acquire n s.registry cpus rest h in
    omega (arith, count-append c rest cpus, ap (count c) parts)
step_count c {s} (releases before cpus after h) = omega (
  arith,
  count-append c s.registry cpus,
  ap (count_held c) h,
  count_held-append c before (cpus ∷ after),
  count_held-append c before after,
)

-- Whatever is acquired and released, in any order, each of the host's cores is there once: it is in
-- the registry or one holder has it, and no core is handed out twice. No other core appears.
pub Reachable-count :
    (available_cpus : ℕ) (s : Cores) (c : ℕ)
    → Reachable available_cpus s
    → count c s.registry + count_held c s.held ≡ (if ltb c available_cpus then 1 else 0)
unfolding new_registry
Reachable-count available_cpus s c at_first = omega (arith, count-below c available_cpus)
Reachable-count available_cpus s c (next {s = before} path step) =
    step_count c step ∙ Reachable-count available_cpus before c path
