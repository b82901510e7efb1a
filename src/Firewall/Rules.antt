-- ===== src/Firewall/Rules.antt =====
-- What bv/src/ufw_wrapper.rs adds to the rules of ufw.
use blockvisor.Common.{
  ◌≡◌, refl, inl, inr, Bool, true, false, Option, some, List, [], ◌∷◌, ◌++◌, map, All, Bool-cases,
}
use blockvisor.Firewall.{NodeFirewallConfig, RuleArgs, from_rules}
use blockvisor.Firewall.Commands.{Arg, word, as_vec, Line, succeeds, run_all, apply_firewall_config}
use blockvisor.Firewall.Cleanup.{Ufw}
use blockvisor.Firewall.Wanted.{Command, reads, added}

module _ {State : Type 0} (run : List Arg → State → State × Option (List Line))
    (rules : State → List Command) (mine : Command → Bool) (config : NodeFirewallConfig)
    (ufw : Ufw run rules mine config.id)
    (dry_run : (s : State) (args : List Arg) → (run (word "--dry-run" ∷ args) s).0 ≡ s) where
  abbrev commands_of : List RuleArgs → List (List Arg)
  commands_of list = map (λ (args : RuleArgs). as_vec args config.bridge) list

  -- ufw takes what is asked for, however the arguments are that read as that.
  abbrev pub Takes : Command → Type 0
  Takes c =
      (args : List Arg)
      → reads args ≡ some c
      → ((s : State) → succeeds run (run (word "--dry-run" ∷ args) s).1 ≡ true)
        × ((s : State)
            → (succeeds run (run args s).1 ≡ true) × (rules (run args s).0 ≡ added c (rules s)))

  abbrev pub Accepts : List Command → Type 0
  Accepts = All Takes

  rejects :
      (before : List (List Arg)) (args : List Arg) (after : List (List Arg)) (s : State)
      → succeeds run (run (word "--dry-run" ∷ args) s).1 ≡ false
      → run_all run (map (λ args. word "--dry-run" ∷ args) (before ++ args ∷ after)) s ≡ (s, false)
  rejects [] args after s h = rw (dry_run s args, h) refl
  rejects (first ∷ before) args after s h =
      elim (Bool-cases (succeeds run (run (word "--dry-run" ∷ first) s).1)) [
        | inl e ↦ rw (dry_run s first, e) (rejects before args after s h)
        | inr e ↦ rw (dry_run s first, e) refl
      ]

  -- If ufw refuses one of the commands in the dry run, then `apply_firewall_config` fails, and ufw is
  -- as it was: the old rules of the node stay in force.
  pub apply_firewall_config-rejected :
      (s : State) (before : List (List Arg)) (args : List Arg) (after : List (List Arg))
      → commands_of (from_rules config) ≡ before ++ args ∷ after
      → succeeds run (run (word "--dry-run" ∷ args) s).1 ≡ false
      → apply_firewall_config run config s ≡ (s, false)
  unfolding apply_firewall_config
  apply_firewall_config-rejected s before args after e h =
      rw (e, rejects before args after s h) refl
