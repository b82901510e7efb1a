-- ===== src/Firewall/Read.antt =====
-- The commands that bv/src/ufw_wrapper.rs makes of a configuration read as those that are wanted.
use blockvisor.Common.{
  ℕ, ◌≡◌, refl, ◌∙◌, Option, none, some, List, [], ◌∷◌, ◌++◌, map, reverse, append-nil, flatten, ap,
  append_assoc,
}
use Prim.Native.String.{String}
use blockvisor.Firewall.{
  Action, allow, deny, reject, Direction, out, into, Protocol, tcp, udp, both, Rule,
  NodeFirewallConfig, RuleName, RuleArgs, action_name, protocol_arg, from_rule, or_any, rule_args,
  from_rules,
}
use blockvisor.Firewall.Commands.{
  Arg, word, comment, route_args, pushed_port, pushed_protocol, as_vec,
}
use blockvisor.Firewall.Wanted.{
  Command, read_rest, read_addresses, reads, one_protocol, with_ip, with_ips, wanted,
}

read_rest-pushed :
    (interface : Option String) (action : Action) (direction : Direction) (from to : String)
    (port : Option ℕ) (protocol : Option Protocol) (name : RuleName)
    → read_rest
        (record {
          interface = interface;
          action = action;
          direction = direction;
          from = from;
          to = to;
          port = none;
          protocol = none;
          name = none;
        })
        (pushed_port port
          ++ pushed_protocol (protocol_arg protocol)
          ++ word "comment" ∷ comment name ∷ [])
      ≡ some (record {
        interface = interface;
        action = action;
        direction = direction;
        from = from;
        to = to;
        port = port;
        protocol = one_protocol protocol;
        name = some name;
      })
read_rest-pushed i a d from to none none name = refl
read_rest-pushed i a d from to none (some tcp) name = refl
read_rest-pushed i a d from to none (some udp) name = refl
read_rest-pushed i a d from to none (some both) name = refl
read_rest-pushed i a d from to (some port) none name = refl
read_rest-pushed i a d from to (some port) (some tcp) name = refl
read_rest-pushed i a d from to (some port) (some udp) name = refl
read_rest-pushed i a d from to (some port) (some both) name = refl

-- The arguments that the wrapper makes.
abbrev args_of :
    Action → Direction → Option Protocol → String → String → Option ℕ → RuleName → RuleArgs
args_of action direction protocol from to port name = record {
  policy = action_name action;
  direction = direction;
  protocol = protocol_arg protocol;
  ip_from = from;
  ip_to = to;
  port = port;
  name = name;
}

reads-route_args :
    (interface : Option String) (action : Action) (direction : Direction)
    (protocol : Option Protocol) (from to : String) (port : Option ℕ) (name : RuleName)
    (rest : List Arg)
    → reads (route_args (args_of action direction protocol from to port name) interface ++ rest)
      ≡ read_addresses interface
          (some action)
          (some direction)
          (word "from" ∷ word from ∷ word "to" ∷ word to ∷ rest)
reads-route_args none allow into p from to port name rest = refl
reads-route_args none allow out p from to port name rest = refl
reads-route_args none deny into p from to port name rest = refl
reads-route_args none deny out p from to port name rest = refl
reads-route_args none reject into p from to port name rest = refl
reads-route_args none reject out p from to port name rest = refl
reads-route_args (some interface) allow into p from to port name rest = refl
reads-route_args (some interface) allow out p from to port name rest = refl
reads-route_args (some interface) deny into p from to port name rest = refl
reads-route_args (some interface) deny out p from to port name rest = refl
reads-route_args (some interface) reject into p from to port name rest = refl
reads-route_args (some interface) reject out p from to port name rest = refl

append-rest : (xs ys zs rest : List Arg) → ((xs ++ ys) ++ zs) ++ rest ≡ xs ++ ((ys ++ zs) ++ rest)
append-rest xs ys zs rest =
    ap (λ list. list ++ rest) (append_assoc xs ys zs) ∙ append_assoc xs (ys ++ zs) rest

reads-as_vec :
    (interface : Option String) (action : Action) (direction : Direction)
    (protocol : Option Protocol) (from to : String) (port : Option ℕ) (name : RuleName)
    → reads (as_vec (args_of action direction protocol from to port name) interface)
      ≡ some (record {
        interface = interface;
        action = action;
        direction = direction;
        from = from;
        to = to;
        port = port;
        protocol = one_protocol protocol;
        name = some name;
      })
unfolding as_vec
reads-as_vec interface action direction protocol from to port name =
    ap reads (
      append-rest (route_args (args_of action direction protocol from to port name) interface)
        (pushed_port port) (pushed_protocol (protocol_arg protocol))
        (word "comment" ∷ comment name ∷ []))
    ∙ reads-route_args interface action direction protocol from to port name (
        pushed_port port
        ++ pushed_protocol (protocol_arg protocol)
        ++ word "comment" ∷ comment name ∷ [])
    ∙ read_rest-pushed interface action direction from to port protocol name

module _ (config : NodeFirewallConfig) where
  -- The commands read as these ones, in order.
  abbrev pub AllRead : List RuleArgs → List Command → Type 0
  AllRead [] [] = Unit {0}
  AllRead (args ∷ list) (c ∷ commands) =
      (reads (as_vec args config.bridge) ≡ some c) × AllRead list commands
  AllRead _ _ = ⊥

  AllRead-append :
      (xs : List RuleArgs) (cs : List Command) (ys : List RuleArgs) (ds : List Command)
      → AllRead xs cs
      → AllRead ys ds
      → AllRead (xs ++ ys) (cs ++ ds)
  AllRead-append [] [] ys ds h k = k
  AllRead-append (x ∷ xs) (c ∷ cs) ys ds (e, h) k = (e, AllRead-append xs cs ys ds h k)
  AllRead-append [] (c ∷ cs) ys ds h k = absurd h
  AllRead-append (x ∷ xs) [] ys ds h k = absurd h

  AllRead-flatten {ℓ} :
      {A : Type ℓ} (f : A → List RuleArgs) (g : A → List Command) (xs : List A)
      → ((x : A) → AllRead (f x) (g x))
      → AllRead (flatten (map f xs)) (flatten (map g xs))
  AllRead-flatten f g [] h = tt
  AllRead-flatten f g (x ∷ xs) h =
      AllRead-append (f x) (g x) (flatten (map f xs)) (flatten (map g xs)) (h x)
        (AllRead-flatten f g xs h)

  AllRead-ports :
      (f : ℕ → RuleArgs) (g : ℕ → Command) (ports : List ℕ)
      → ((port : ℕ) → reads (as_vec (f port) config.bridge) ≡ some (g port))
      → AllRead (map f ports) (map g ports)
  AllRead-ports f g [] h = tt
  AllRead-ports f g (port ∷ ports) h = (h port, AllRead-ports f g ports h)

  rule-AllRead :
      (name : String) (action : Action) (direction : Direction) (protocol : Option Protocol)
      (ips : List String) (ports : List ℕ) (ip : String)
      → let rule : Rule = record {
        name = name;
        action = action;
        direction = direction;
        protocol = protocol;
        ips = ips;
        ports = ports;
      } in
        AllRead (from_rule config rule (protocol_arg protocol) ip) (with_ip config rule ip)
  rule-AllRead name action out protocol ips [] ip =
      (reads-as_vec config.bridge action out protocol config.ip ip none _, tt)
  rule-AllRead name action into protocol ips [] ip =
      (reads-as_vec config.bridge action into protocol ip config.ip none _, tt)
  rule-AllRead name action out protocol ips (port ∷ ports) ip =
      AllRead-ports _ _ (port ∷ ports)
        (λ p. reads-as_vec config.bridge action out protocol config.ip ip (some p) _)
  rule-AllRead name action into protocol ips (port ∷ ports) ip =
      AllRead-ports _ _ (port ∷ ports)
        (λ p. reads-as_vec config.bridge action into protocol ip config.ip (some p) _)

  ips-AllRead :
      (rule : Rule) (ips : List String)
      → AllRead
          (flatten (map (from_rule config rule (protocol_arg rule.protocol)) (or_any ips)))
          (with_ips config rule ips)
  ips-AllRead rule [] =
      rw (append-nil (from_rule config rule (protocol_arg rule.protocol) "any"))
        (rule-AllRead rule.name rule.action rule.direction rule.protocol rule.ips rule.ports "any")
  ips-AllRead rule (ip ∷ ips) =
      AllRead-flatten (from_rule config rule (protocol_arg rule.protocol)) (with_ip config rule)
        (ip ∷ ips)
        (rule-AllRead rule.name rule.action rule.direction rule.protocol rule.ips rule.ports)

  -- The wrapper makes the commands that are wanted, in their order.
  pub from_rules-AllRead : AllRead (from_rules config) (wanted config)
  unfolding from_rules
  from_rules-AllRead =
      AllRead-append (flatten (map (rule_args config) (reverse config.rules)))
        (flatten (map (λ (rule : Rule). with_ips config rule rule.ips) (reverse config.rules))) _ _
        (AllRead-flatten (rule_args config) (λ (rule : Rule). with_ips config rule rule.ips)
          (reverse config.rules) (λ rule. ips-AllRead rule rule.ips))
        (
          reads-as_vec config.bridge config.default_in into none "any" config.ip none _,
          (reads-as_vec config.bridge config.default_out out none config.ip "any" none _, tt),
        )
