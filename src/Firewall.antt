-- ===== src/Firewall.antt =====
-- The firewall rules of a node: the data of bv/src/firewall.rs and bv/src/pal.rs, and
-- bv/src/ufw_wrapper.rs, which puts them into commands of ufw. How numbers and comments read is not
-- modelled: an argument that is made by `format!` or `to_string` is what it is given.
use blockvisor.Common.{ℕ, ◌+◌, ◌-◌, Option, none, some, List, [], ◌∷◌, ◌++◌, map, reverse, flatten}
use Prim.Native.String.{String}
pub mod Commands
pub mod Cleanup
pub mod Wanted
pub mod Read
pub mod Rules

pub data Action : Type 0 where
  allow : Action
  deny : Action
  reject : Action

pub data Direction : Type 0 where
  out : Direction
  into : Direction

pub data Protocol : Type 0 where
  tcp : Protocol
  udp : Protocol
  both : Protocol

pub record Rule : Type 0 where
  pub name : String
  pub action : Action
  pub direction : Direction
  pub protocol : Option Protocol
  pub ips : List String
  pub ports : List ℕ  -- u16

-- The configuration, and the node that it is for.
pub record NodeFirewallConfig : Type 0 where
  pub id : String
  pub ip : String
  pub bridge : Option String
  pub default_in : Action
  pub default_out : Action
  pub rules : List Rule

-- `"{id} {name}"`.
pub record RuleName : Type 0 where
  pub id : String
  pub name : String

pub record RuleArgs : Type 0 where
  pub policy : String
  pub direction : Direction
  pub protocol : Option String
  pub ip_from : String
  pub ip_to : String
  pub port : Option ℕ
  pub name : RuleName

abbrev pub action_name : Action → String
action_name allow = "allow"
action_name deny = "deny"
action_name reject = "reject"

abbrev pub direction_name : Direction → String
direction_name out = "out"
direction_name into = "in"

abbrev pub protocol_arg : Option Protocol → Option String
protocol_arg none = none
protocol_arg (some tcp) = some "tcp"
protocol_arg (some udp) = some "udp"
protocol_arg (some both) = none

abbrev pub ends : Direction → String → String → String × String
ends out node_ip ip = (node_ip, ip)
ends into node_ip ip = (ip, node_ip)

abbrev pub port_args : RuleArgs → List ℕ → List RuleArgs
port_args args [] = args ∷ []
port_args args (port ∷ ports) = map (λ (p : ℕ). record args { port = some p }) (port ∷ ports)

-- What `from_rule` pushes.
abbrev pub from_rule : NodeFirewallConfig → Rule → Option String → String → List RuleArgs
from_rule config rule proto ip =
    let (ip_from, ip_to) = ends rule.direction config.ip ip in
    port_args
      (record {
        policy = action_name rule.action;
        direction = rule.direction;
        protocol = proto;
        ip_from = ip_from;
        ip_to = ip_to;
        port = none;
        name = record { id = config.id; name = rule.name };
      })
      rule.ports

abbrev pub or_any : List String → List String
or_any [] = "any" ∷ []
or_any (ip ∷ ips) = ip ∷ ips

abbrev pub rule_args : NodeFirewallConfig → Rule → List RuleArgs
rule_args config rule =
    flatten (map (from_rule config rule (protocol_arg rule.protocol)) (or_any rule.ips))

-- The last rule comes first, and the defaults come last.
unfoldable pub from_rules : NodeFirewallConfig → List RuleArgs
from_rules config =
    flatten (map (rule_args config) (reverse config.rules))
    ++ (record {
      policy = action_name config.default_in;
      direction = into;
      protocol = none;
      ip_from = "any";
      ip_to = config.ip;
      port = none;
      name = record { id = config.id; name = "default in" };
    })
      ∷ (record {
        policy = action_name config.default_out;
        direction = out;
        protocol = none;
        ip_from = config.ip;
        ip_to = "any";
        port = none;
        name = record { id = config.id; name = "default out" };
      })
      ∷ []
