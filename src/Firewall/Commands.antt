-- ===== src/Firewall/Commands.antt =====
-- The commands of bv/src/ufw_wrapper.rs. The program ufw is a parameter: what a command leaves as its
-- state, and its output, or none where it fails. A line of its output is known by the text that it
-- contains and by the number before its first bracket.
use blockvisor.Common.{
  ℕ, Bool, true, false, Option, none, some, List, [], ◌∷◌, ◌++◌, map, leb, if◌then◌else◌,
}
use Prim.Native.String.{String}
use blockvisor.Firewall.{NodeFirewallConfig, RuleName, RuleArgs, direction_name, from_rules}

pub data Arg : Type 0 where
  word : String → Arg
  number : ℕ → Arg
  comment : RuleName → Arg

abbrev pub route_args : RuleArgs → Option String → List Arg
route_args args (some iface) =
    word "route"
    ∷ word args.policy
    ∷ word (direction_name args.direction)
    ∷ word "on"
    ∷ word iface
    ∷ word "from"
    ∷ word args.ip_from
    ∷ word "to"
    ∷ word args.ip_to
    ∷ []
route_args args none =
    word args.policy
    ∷ word (direction_name args.direction)
    ∷ word "from"
    ∷ word args.ip_from
    ∷ word "to"
    ∷ word args.ip_to
    ∷ []

abbrev pub pushed_port : Option ℕ → List Arg
pushed_port none = []
pushed_port (some port) = word "port" ∷ number port ∷ []

abbrev pub pushed_protocol : Option String → List Arg
pushed_protocol none = []
pushed_protocol (some protocol) = word "proto" ∷ word protocol ∷ []

unfoldable pub as_vec : RuleArgs → Option String → List Arg
as_vec args iface =
    route_args args iface
    ++ pushed_port args.port
    ++ pushed_protocol args.protocol
    ++ word "comment" ∷ comment args.name ∷ []

pub record Line : Type 0 where
  pub contains : String → Bool
  pub leading_number : Option ℕ

abbrev pub keep_number : Bool → Option ℕ → List ℕ → List ℕ
keep_number true (some n) numbers = n ∷ numbers
keep_number true none numbers = numbers
keep_number false found numbers = numbers

abbrev pub rule_numbers : String → List Line → List ℕ
rule_numbers node_id [] = []
rule_numbers node_id (line ∷ lines) =
    keep_number (line.contains node_id) line.leading_number (rule_numbers node_id lines)

abbrev pub insert_number : ℕ → List ℕ → List ℕ
insert_number n [] = n ∷ []
insert_number n (m ∷ ms) = if leb n m then n ∷ m ∷ ms else m ∷ insert_number n ms

-- `sort` of the standard library.
abbrev pub sort_numbers : List ℕ → List ℕ
sort_numbers [] = []
sort_numbers (n ∷ ns) = insert_number n (sort_numbers ns)

module _ {State : Type 0} (run : List Arg → State → State × Option (List Line)) where
  -- A step, where the ones before were successful.
  abbrev pub and_run : State × Bool → (State → State × Bool) → State × Bool
  and_run (s, true) next = next s
  and_run (s, false) next = (s, false)

  abbrev pub succeeds : Option (List Line) → Bool
  succeeds none = false
  succeeds (some lines) = true

  abbrev pub run_args : List Arg → State → State × Bool
  run_args args s = let (s', output) = run args s in (s', succeeds output)

  -- The `pop` loop takes the last number first.
  abbrev pub delete_rules : List ℕ → State → State × Bool
  delete_rules [] s = (s, true)
  delete_rules (n ∷ ns) s =
      and_run (delete_rules ns s) (run_args (word "--force" ∷ word "delete" ∷ number n ∷ []))

  abbrev pub delete_listed : String → State × Option (List Line) → State × Bool
  delete_listed node_id (s, none) = (s, false)
  delete_listed node_id (s, some lines) = delete_rules (sort_numbers (rule_numbers node_id lines)) s

  unfoldable pub cleanup_node_rules : String → State → State × Bool
  cleanup_node_rules node_id s =
      delete_listed node_id (run (word "status" ∷ word "numbered" ∷ []) s)

  abbrev pub run_all : List (List Arg) → State → State × Bool
  run_all [] s = (s, true)
  run_all (args ∷ rest) s = and_run (run_args args s) (run_all rest)

  unfoldable pub apply_firewall_config : NodeFirewallConfig → State → State × Bool
  unfolding cleanup_node_rules
  apply_firewall_config config s =
      let commands = map (λ args. as_vec args config.bridge) (from_rules config) in
      and_run (run_all (map (λ args. word "--dry-run" ∷ args) commands) s)
        λ s1. and_run (cleanup_node_rules config.id s1) λ s2. run_all commands s2
