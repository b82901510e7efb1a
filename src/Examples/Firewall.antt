-- ===== src/Examples/Firewall.antt =====
-- A firewall that is a list of rules: the theorems on bv/src/ufw_wrapper.rs at concrete inputs.
use blockvisor.Common.{
  ℕ, ◌+◌, ◌-◌, ◌≡◌, refl, ap, ◌∙◌, inl, inr, Bool, true, false, Option, none, some, List, [], ◌∷◌,
  ◌++◌, arith, ◌==◌, if◌then◌else◌, length, Bool-cases,
}
use Prim.Native.String.{String}
use package.text.Mathlib.Text.{◌==◌ as ◌=s◌}
use blockvisor.Firewall.{NodeFirewallConfig, allow, deny, reject, out, into, tcp}
use blockvisor.Firewall.Commands.{Arg, word, number, Line, rule_numbers, cleanup_node_rules}
use blockvisor.Firewall.Cleanup.{positions, Ufw, cleanup_node_rules-others}
use blockvisor.Firewall.Wanted.{Command, reads, wanted, added}

abbrev of_node : Command → Bool
of_node c = elim c.name [ none ↦ false | some name ↦ name.id =s "node" ]

abbrev line_of : ℕ → Command → Line
line_of k c = record { contains = λ text. of_node c; leading_number = some k }

abbrev lines_from : ℕ → List Command → List Line
lines_from k [] = []
lines_from k (c ∷ rules) = line_of k c ∷ lines_from (k + 1) rules

abbrev without : ℕ → List Command → List Command
without n [] = []
without n (c ∷ rules) = if n == 1 then rules else c ∷ without (n - 1) rules

abbrev without_arg : List Arg → List Command → List Command
without_arg (action ∷ number n ∷ rest) rules = without n rules
without_arg _ rules = rules

abbrev dry_output : Option Command → Option (List Line)
dry_output none = none
dry_output (some c) = some []

-- A command that is no rule: a dry run, a deletion or the list of the rules.
abbrev other_on : List Arg → List Command → List Command × Option (List Line)
other_on (word w ∷ rest) rules =
    if w =s "--dry-run"
    then (rules, dry_output (reads rest))
    else if w =s "--force"
    then (without_arg rest rules, some [])
    else if w =s "status"
    then (rules, some (lines_from 1 rules))
    else (rules, none)
other_on args rules = (rules, none)

abbrev run_as : Option Command → List Arg → List Command → List Command × Option (List Line)
run_as none args rules = other_on args rules
run_as (some c) args rules = (added c rules, some [])

abbrev run_on : List Arg → List Command → List Command × Option (List Line)
run_on args rules = run_as (reads args) args rules

abbrev all_rules : List Command → List Command
all_rules rules = rules

numbers_if :
    (k : ℕ) (c : Command) (rules : List Command)
    → rule_numbers "node" (lines_from (k + 1) rules) ≡ positions of_node (k + 1) rules
    → rule_numbers "node" (lines_from k (c ∷ rules)) ≡ positions of_node k (c ∷ rules)
numbers_if k c rules h = elim (Bool-cases (of_node c)) [
  | inl e ↦ rw e (ap (◌∷◌ k) h)
  | inr e ↦ rw e h
]

numbers-positions :
    (k : ℕ) (rules : List Command)
    → rule_numbers "node" (lines_from k rules) ≡ positions of_node k rules
numbers-positions k [] = refl
numbers-positions k (c ∷ rules) = numbers_if k c rules (numbers-positions (k + 1) rules)

without-append :
    (before : List Command) (x : Command) (after : List Command) (n : ℕ)
    → n ≡ length before + 1
    → without n (before ++ x ∷ after) ≡ before ++ after
without-append [] x after n h = let first : (n == 1) ≡ true = ground arith in rw first refl
without-append (y ∷ before) x after n h =
    let later : (n == 1) ≡ false = ground arith in
    rw later (ap (◌∷◌ y) (without-append before x after (n - 1) (omega arith)))

list_ufw : Ufw run_on all_rules of_node "node"
list_ufw = record {
  listed = λ s. (lines_from 1 s, refl, numbers-positions 1 s);
  deleted = λ s before x after e. (
    without (length before + 1) s,
    [],
    refl,
    ap (without (length before + 1)) e ∙ without-append before x after (length before + 1) refl,
  );
}

abbrev a_config : NodeFirewallConfig
a_config = record {
  id = "node";
  ip = "10.0.0.2";
  bridge = none;
  default_in = reject;
  default_out = allow;
  rules =
      (record {
        name = "rpc";
        action = deny;
        direction = into;
        protocol = some tcp;
        ips = [];
        ports = 80 ∷ 443 ∷ [];
      })
      ∷ [];
}

abbrev rule_of : String → Command
rule_of id = record {
  interface = none;
  action = allow;
  direction = out;
  from = "any";
  to = id;
  port = none;
  protocol = none;
  name = some (record { id = id; name = "old" });
}

abbrev some_rules : List Command
some_rules = rule_of "node" ∷ rule_of "other" ∷ rule_of "node" ∷ rule_of "third" ∷ []

cleanup_node_rules-others_example :
    (s' : List Command) × (cleanup_node_rules run_on "node" some_rules ≡ (s', true))
    × (s' ≡ rule_of "other" ∷ rule_of "third" ∷ [])
cleanup_node_rules-others_example =
    cleanup_node_rules-others run_on all_rules of_node "node" list_ufw some_rules

-- Two commands for the ports of the rule, and two for the defaults.
four_wanted : length (wanted a_config) ≡ 4
four_wanted = refl
