-- ===== src/Firewall/Cleanup.antt =====
-- What bv/src/ufw_wrapper.rs makes of the rules of ufw.
use blockvisor.Common.{
  ℕ, ◌+◌, ◌<◌, ◌≡◌, refl, sym, ap, ◌∙◌, inl, inr, Bool, true, false, not, Option, some, List, [],
  ◌∷◌, ◌++◌, append_assoc, arith, leb, if◌then◌else◌, length, retain, Bool-cases, length-append,
}
use Prim.Native.String.{String}
use blockvisor.Firewall.Commands.{
  Arg, word, number, Line, rule_numbers, insert_number, sort_numbers, delete_rules,
  cleanup_node_rules,
}

module _ {R : Type 0} (mine : R → Bool) where
  -- The places of the rules that are `mine`, where the first rule has the number `k`.
  abbrev pub positions : ℕ → List R → List ℕ
  positions k [] = []
  positions k (x ∷ xs) = if mine x then k ∷ positions (k + 1) xs else positions (k + 1) xs

  abbrev pub others : List R → List R
  others = retain (λ x. not (mine x))

  insert_number-positions :
      (k j : ℕ) (xs : List R) → k < j → insert_number k (positions j xs) ≡ k ∷ positions j xs
  insert_number-positions k j [] h = refl
  insert_number-positions k j (x ∷ xs) h = elim (Bool-cases (mine x)) [
    | inl e ↦ let less : leb k j ≡ true = ground arith in rw (e, less) refl
    | inr e ↦ rw e (insert_number-positions k (j + 1) xs (omega arith))
  ]

  sort_numbers-positions : (k : ℕ) (xs : List R) → sort_numbers (positions k xs) ≡ positions k xs
  sort_numbers-positions k [] = refl
  sort_numbers-positions k (x ∷ xs) = elim (Bool-cases (mine x)) [
    | inl e ↦
        rw (e, sort_numbers-positions (k + 1) xs)
          (insert_number-positions k (k + 1) xs (omega arith))
    | inr e ↦ rw e (sort_numbers-positions (k + 1) xs)
  ]

  others_mine : (x : R) (xs : List R) → mine x ≡ true → others (x ∷ xs) ≡ others xs
  others_mine x xs m = ground arith

  others_else : (x : R) (xs : List R) → mine x ≡ false → others (x ∷ xs) ≡ x ∷ others xs
  others_else x xs m = ground arith

-- How ufw works: a list of numbered rules, from which a rule is deleted by its number, and which a
-- rule that is valid is put behind. A dry run changes nothing.
pub record Ufw {State R : Type 0} (run : List Arg → State → State × Option (List Line))
    (rules : State → List R) (mine : R → Bool) (node_id : String) : Type 0 where
  pub listed :
      (s : State)
      → (lines : List Line) × (run (word "status" ∷ word "numbered" ∷ []) s ≡ (s, some lines))
        × (rule_numbers node_id lines ≡ positions mine 1 (rules s))
  pub deleted :
      (s : State) (before : List R) (x : R) (after : List R)
      → rules s ≡ before ++ x ∷ after
      → (s' : State) × (output : List Line) × (run
            (word "--force" ∷ word "delete" ∷ number (length before + 1) ∷ [])
            s
          ≡ (s', some output))
        × (rules s' ≡ before ++ after)

module _ {State R : Type 0} (run : List Arg → State → State × Option (List Line))
    (rules : State → List R) (mine : R → Bool) (node_id : String)
    (ufw : Ufw run rules mine node_id) where
  delete_mine :
      (x : R) (xs : List R) (k n : ℕ) (s s1 s2 : State) (output : List Line)
      → mine x ≡ true
      → delete_rules run (positions mine (k + 1) xs) s ≡ (s1, true)
      → k ≡ n
      → run (word "--force" ∷ word "delete" ∷ number n ∷ []) s1 ≡ (s2, some output)
      → delete_rules run (positions mine k (x ∷ xs)) s ≡ (s2, true)
  delete_mine x xs k n s s1 s2 output m done same ran = rw (m, done, same, ran) refl

  delete_others :
      (xs before : List R) (k : ℕ) (s : State)
      → rules s ≡ before ++ xs
      → k ≡ length before + 1
      → (s' : State) × (delete_rules run (positions mine k xs) s ≡ (s', true))
        × (rules s' ≡ before ++ others mine xs)
  delete_others [] before k s e h = (s, refl, e)
  delete_others (x ∷ xs) before k s e h =
      let (s1, done, left) =
        delete_others xs (before ++ x ∷ []) (k + 1) s (e ∙ sym (append_assoc before (x ∷ []) xs))
          (omega (arith, length-append before (x ∷ []))) in
      let left' : rules s1 ≡ before ++ x ∷ others mine xs =
        left ∙ append_assoc before (x ∷ []) (others mine xs) in
      elim (Bool-cases (mine x)) [
        | inl m ↦
            let (s2, output, ran, gone) = ufw.deleted s1 before x (others mine xs) left' in
            (
              s2,
              delete_mine x xs k (length before + 1) s s1 s2 output m done h ran,
              gone ∙ ap (◌++◌ before) (sym (others_mine mine x xs m)),
            )
        | inr m ↦ (s1, rw m done, left' ∙ ap (◌++◌ before) (sym (others_else mine x xs m)))
      ]

  -- If ufw lists its rules, and deletes them by their numbers, then the clean-up of a node ends
  -- without an error, and deletes the node's rules and no other ones: the numbers are still right
  -- when they are used.
  pub cleanup_node_rules-others :
      (s : State)
      → (s' : State) × (cleanup_node_rules run node_id s ≡ (s', true))
        × (rules s' ≡ others mine (rules s))
  unfolding cleanup_node_rules
  cleanup_node_rules-others s =
      let (lines, ran, numbers) = ufw.listed s in
      let (s', done, left) = delete_others (rules s) [] 1 s refl refl in
      (s', rw (ran, numbers, sort_numbers-positions mine 1 (rules s)) done, left)
