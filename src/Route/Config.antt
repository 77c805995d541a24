-- ===== src/Route/Config.antt =====
-- src/lib/route/config, what both sides share: `OneOrMany`, `parse_ip_net` and parsing of lists.
pub mod In
pub mod Out
pub mod Laws
use plug2proxy.Prelude.{ℕ, Option, none, some, List, [], ◌∷◌}
use mathlib.Core.Option
use plug2proxy.Net.{Text, IpAddr}
use plug2proxy.Route.Externals.{Externals}

-- src/lib/utils/miscellaneous.rs.
pub data OneOrMany (A : Type 0) : Type 0 where
  one : A → OneOrMany A
  many : List A → OneOrMany A

abbrev pub into_vec : {A : Type 0} → OneOrMany A → List A
into_vec (one t) = t ∷ []
into_vec (many v) = v

-- src/lib/utils/net/miscellaneous.rs: a network, or an address as a network of its own.
module _ (x : Externals) where
  abbrev prefix_length : IpAddr → ℕ
  prefix_length (IpAddr.v4 bits) = 32
  prefix_length (IpAddr.v6 bits) = 128

  unfoldable pub parse_ip_net : Text → Option x.IpNet
  parse_ip_net ip_net = elim (x.parse_net ip_net) [
    | some net ↦ some net
    | none ↦ elim (x.parse_ip ip_net) [ none ↦ none | some ip ↦ x.new_net ip (prefix_length ip) ]
  ]

-- `map(|s| parse(s).unwrap_or_else(panic)).collect()`: `none` is the panic.
unfoldable pub parse_all : {A : Type 0} → (Text → Option A) → List Text → Option (List A)
parse_all parse [] = some []
parse_all parse (s ∷ texts) = elim (parse s) [
  | none ↦ none
  | some a ↦ Option.map (◌∷◌ a) (parse_all parse texts)
]
