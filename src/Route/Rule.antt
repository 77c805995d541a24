-- ===== src/Route/Rule.antt =====
-- src/lib/route/rule.rs: the `Rule` trait and the five kinds of rule.
pub mod Domain
pub mod Subdomain
use plug2proxy.Prelude.{
  ℕ, ◌-◌, ℤ, i64_max, ◌==◌, nat_eq, list_eq, Bool, true, false, not, ◌&&◌, ◌||◌, Option, none, some,
  List, if◌then◌else◌, any, length, leb,
}
use plug2proxy.Net.{Text, SocketAddr, ip, port}
use plug2proxy.Route.Label.{Label}
use plug2proxy.Route.Externals.{Externals}
use Domain.{ends_with, take, dot}

-- The trait's methods, over the type that implements it.
pub record RuleTrait (R : Type 0) : Type 0 where
  pub priority : R → ℤ
  pub tag : R → Option Text
  pub match : R → SocketAddr → Option Text → Option (List Text) → Bool → Option (List Label)

pub record GeoIpRule : Type 0 where
  pub matches : List Text
  pub labels : List Label
  pub priority : ℤ
  pub negate : Bool
  pub tag : Option Text

unfoldable pub match_geo_ip : GeoIpRule → Option (List Text) → Option (List Label)
match_geo_ip r none = none
match_geo_ip r (some region_codes) =
    let matched =
      any (λ match_region. any (λ region. region == match_region) region_codes) r.matches in
    let condition = if r.negate then not matched else matched in
    if condition then some r.labels else none

pub record AddressRule (x : Externals) : Type 0 where
  pub match_ips : Option (List x.IpNet)
  pub match_ports : Option (List ℕ)
  pub labels : List Label
  pub priority : ℤ
  pub negate : Bool
  pub tag : Option Text

module _ {x : Externals} where
  unfoldable pub match_address : AddressRule x → SocketAddr → Option (List Label)
  match_address r address =
      let port_matched : Bool = elim r.match_ports [
        | some match_ports ↦ any (λ p. p == port address) match_ports
        | none ↦ true
      ] in
      let ip_matched : Bool = elim r.match_ips [
        | some match_ips ↦ any (λ net. x.net_contains net (ip address)) match_ips
        | none ↦ true
      ] in
      let matched = ip_matched && port_matched in
      let condition = if r.negate then not matched else matched in
      if condition then some r.labels else none

pub record DomainRule : Type 0 where
  pub matches : List Text
  pub labels : List Label
  pub priority : ℤ
  pub negate : Bool
  pub tag : Option Text

-- The test of the closure: the domain itself, or what follows a dot at its end.
unfoldable pub matches_domain : Text → Text → Bool
matches_domain domain match_domain =
    domain == match_domain
    || ends_with domain match_domain
      && ends_with (take (length domain - length match_domain) domain) dot

unfoldable pub match_domain_rule : DomainRule → Option Text → Option (List Label)
unfolding matches_domain
match_domain_rule r none = none
match_domain_rule r (some domain) =
    let matched = any (matches_domain domain) r.matches in
    let condition = if r.negate then not matched else matched in
    if condition then some r.labels else none

pub record DomainPatternRule (x : Externals) : Type 0 where
  pub matches : List x.Regex
  pub labels : List Label
  pub priority : ℤ
  pub negate : Bool
  pub tag : Option Text

module _ {x : Externals} where
  unfoldable pub match_domain_pattern : DomainPatternRule x → Option Text → Option (List Label)
  match_domain_pattern r none = none
  match_domain_pattern r (some domain) =
      let matched = any (λ pattern. x.is_match pattern domain) r.matches in
      let condition = if r.negate then not matched else matched in
      if condition then some r.labels else none

pub record FallbackRule : Type 0 where
  pub labels : List Label
  pub tag : Option Text

unfoldable pub match_fallback : FallbackRule → Bool → Option (List Label)
match_fallback r any_matched = if any_matched then none else some r.labels

-- `Box<dyn Rule>`.
pub data DynRule (x : Externals) : Type 0 where
  geo_ip : GeoIpRule → DynRule x
  address : AddressRule x → DynRule x
  domain : DomainRule → DynRule x
  domain_pattern : DomainPatternRule x → DynRule x
  fallback : FallbackRule → DynRule x

module _ {x : Externals} where
  abbrev pub priority : DynRule x → ℤ
  priority (geo_ip r) = r.priority
  priority (address r) = r.priority
  priority (domain r) = r.priority
  priority (domain_pattern r) = r.priority
  priority (fallback r) = i64_max

  abbrev pub tag : DynRule x → Option Text
  tag (geo_ip r) = r.tag
  tag (address r) = r.tag
  tag (domain r) = r.tag
  tag (domain_pattern r) = r.tag
  tag (fallback r) = r.tag

  unfoldable pub match :
      DynRule x → SocketAddr → Option Text → Option (List Text) → Bool → Option (List Label)
  match (geo_ip r) a name region_codes any_matched = match_geo_ip r region_codes
  match (address r) a name region_codes any_matched = match_address r a
  match (domain r) a name region_codes any_matched = match_domain_rule r name
  match (domain_pattern r) a name region_codes any_matched = match_domain_pattern r name
  match (fallback r) a name region_codes any_matched = match_fallback r any_matched

abbrev pub dyn_rule : (x : Externals) → RuleTrait (DynRule x)
dyn_rule x = record { priority = priority; tag = tag; match = match }
