-- ===== src/Route/Externals.antt =====
-- What the routing code takes from crates outside the repository: `ipnet`, `regex` and `uuid`.
use plug2proxy.Prelude.{ℕ, Bool, Option}
use plug2proxy.Net.{Text, IpAddr}

pub record Externals : Type 1 where
  -- `ipnet::IpNet`: `FromStr`, `IpNet::new` and `contains`.
  pub IpNet : Type 0
  pub parse_net : Text → Option IpNet
  pub new_net : IpAddr → ℕ → Option IpNet
  pub net_contains : IpNet → IpAddr → Bool
  -- `IpAddr::from_str` of the standard library.
  pub parse_ip : Text → Option IpAddr
  -- `regex::Regex`: `FromStr` and `is_match`.
  pub Regex : Type 0
  pub parse_regex : Text → Option Regex
  pub is_match : Regex → Text → Bool
  -- `MatchOutId::to_string`, of the UUID inside, which is 128 bits.
  pub out_id_to_string : ℕ → Text
