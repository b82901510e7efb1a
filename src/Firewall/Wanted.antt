-- ===== src/Firewall/Wanted.antt =====
-- Which commands the rules of a configuration of bv/src/firewall.rs ask for, and how ufw reads a command.
use blockvisor.Common.{
  ◌==◌, ℕ, ◌&&◌, Option, none, some, List, [], ◌∷◌, ◌++◌, map, reverse, if◌then◌else◌, flatten,
  Bool, true, false,
}
use Prim.Native.String.{String}
use package.text.Mathlib.Text.{◌==◌ as ◌=s◌}
use blockvisor.Firewall.{
  Action, allow, deny, reject, Direction, out, into, Protocol, tcp, udp, both, Rule,
  NodeFirewallConfig, RuleName, action_name, direction_name, protocol_arg,
}
use blockvisor.Firewall.Commands.{Arg, word, number, comment}

-- What a command asks for: what is done with which packets. `protocol` and `port` are for all where
-- they are not given.
pub record Command : Type 0 where
  pub interface : Option String
  pub action : Action
  pub direction : Direction
  pub from : String
  pub to : String
  pub port : Option ℕ
  pub protocol : Option Protocol
  pub name : Option RuleName

-- The grammar of ufw:
-- [route] POLICY DIRECTION [on INTERFACE] from ADDRESS to ADDRESS [port PORT] [proto PROTOCOL]
-- [comment COMMENT].
abbrev read_action : String → Option Action
read_action w =
    if w =s "allow"
    then some allow
    else if w =s "deny"
    then some deny
    else if w =s "reject"
    then some reject
    else none

abbrev read_direction : String → Option Direction
read_direction w = if w =s "in" then some into else if w =s "out" then some out else none

abbrev read_protocol : String → Option Protocol
read_protocol w = if w =s "tcp" then some tcp else if w =s "udp" then some udp else none

abbrev with_protocol : Command → Option Protocol → Option Command
with_protocol c none = none
with_protocol c (some protocol) = some (record c { protocol = some protocol })

-- What comes behind the addresses, each with the word in front of it.
abbrev pub read_rest : Command → List Arg → Option Command
read_rest c [] = some c
read_rest c (word w ∷ number n ∷ args) =
    if w =s "port" then read_rest (record c { port = some n }) args else none
read_rest c (word w ∷ comment name ∷ args) =
    if w =s "comment" then read_rest (record c { name = some name }) args else none
read_rest c (word w ∷ word p ∷ args) =
    let tcp_rest = read_rest (record c { protocol = some tcp }) args in
    let udp_rest = read_rest (record c { protocol = some udp }) args in
    if w =s "proto"
    then if p =s "tcp" then tcp_rest else if p =s "udp" then udp_rest else none
    else none
read_rest c _ = none

abbrev pub read_addresses :
    Option String → Option Action → Option Direction → List Arg → Option Command
read_addresses interface (some action) (some direction)
      (word from ∷ word ip_from ∷ word to ∷ word ip_to ∷ args) =
    if (from =s "from") && (to =s "to")
    then read_rest
        (record {
          interface = interface;
          action = action;
          direction = direction;
          from = ip_from;
          to = ip_to;
          port = none;
          protocol = none;
          name = none;
        })
        args
    else none
read_addresses interface action direction args = none

abbrev read_route : List Arg → Option Command
read_route (word action ∷ word direction ∷ word on ∷ word interface ∷ args) =
    if on =s "on"
    then read_addresses (some interface) (read_action action) (read_direction direction) args
    else none
read_route args = none

abbrev read_host : List Arg → Option Command
read_host (word action ∷ word direction ∷ args) =
    read_addresses none (read_action action) (read_direction direction) args
read_host args = none

abbrev pub reads : List Arg → Option Command
reads (word w ∷ args) = if w =s "route" then read_route args else read_host (word w ∷ args)
reads args = none

abbrev pub one_protocol : Option Protocol → Option Protocol
one_protocol (some tcp) = some tcp
one_protocol (some udp) = some udp
one_protocol (some both) = none
one_protocol none = none

-- What is wanted for a rule: packets of its direction between the node and each of its addresses, or
-- any address where it has none, on each of its ports, or all where it has none.
module _ (config : NodeFirewallConfig) where
  abbrev pub between : Direction → Action → String → String → Option Protocol → Option ℕ → Command
  between out action name ip protocol port = record {
    interface = config.bridge;
    action = action;
    direction = out;
    from = config.ip;
    to = ip;
    port = port;
    protocol = protocol;
    name = some (record { id = config.id; name = name });
  }
  between into action name ip protocol port = record {
    interface = config.bridge;
    action = action;
    direction = into;
    from = ip;
    to = config.ip;
    port = port;
    protocol = protocol;
    name = some (record { id = config.id; name = name });
  }

  abbrev pub on_ports : (Option ℕ → Command) → List ℕ → List Command
  on_ports on [] = on none ∷ []
  on_ports on (port ∷ ports) = map (λ (p : ℕ). on (some p)) (port ∷ ports)

  abbrev pub with_ip : Rule → String → List Command
  with_ip rule ip =
      on_ports (between rule.direction rule.action rule.name ip (one_protocol rule.protocol))
        rule.ports

  abbrev pub with_ips : Rule → List String → List Command
  with_ips rule [] = with_ip rule "any"
  with_ips rule (ip ∷ ips) = flatten (map (with_ip rule) (ip ∷ ips))

  -- ufw takes the first rule that matches: the rule that is given last has precedence over those in
  -- front of it, and the defaults come last.
  abbrev pub wanted : List Command
  wanted =
      flatten (map (λ (rule : Rule). with_ips rule rule.ips) (reverse config.rules))
      ++ between into config.default_in "default in" "any" none none
        ∷ between out config.default_out "default out" "any" none none
        ∷ []

abbrev same_text : Option String → Option String → Bool
same_text none none = true
same_text (some a) (some b) = a =s b
same_text _ _ = false

abbrev same_port : Option ℕ → Option ℕ → Bool
same_port none none = true
same_port (some a) (some b) = a == b
same_port _ _ = false

-- The commands ask for the same; their comments may differ.
abbrev pub same : Command → Command → Bool
same c d =
    same_text c.interface d.interface
    && (action_name c.action =s action_name d.action)
    && (direction_name c.direction =s direction_name d.direction)
    && (c.from =s d.from)
    && (c.to =s d.to)
    && same_port c.port d.port
    && same_text (protocol_arg c.protocol) (protocol_arg d.protocol)

-- How ufw adds a rule: where there is one that asks for the same, it is kept with the new comment, and
-- else the rule comes behind all others.
abbrev pub added : Command → List Command → List Command
added c [] = c ∷ []
added c (x ∷ rules) = let rest = added c rules in if same c x then c ∷ rules else x ∷ rest

abbrev pub add_all : List Command → List Command → List Command
add_all [] rules = rules
add_all (c ∷ commands) rules = add_all commands (added c rules)
