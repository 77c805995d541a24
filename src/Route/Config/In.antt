-- ===== src/Route/Config/In.antt =====
-- src/lib/route/config/in_config.rs.
use plug2proxy.Prelude.{ℕ, ℤ, i64_min, Bool, Option, none, some, List}
use mathlib.Core.Option
use plug2proxy.Net.{Text}
use plug2proxy.Route.Label.{Label}
use plug2proxy.Route.Externals.{Externals}
use plug2proxy.Route.Rule.{DynRule}
use plug2proxy.Route.Config.{OneOrMany, into_vec, parse_ip_net, parse_all}

pub record InGeoIpRuleConfig : Type 0 where
  pub match : OneOrMany Text
  pub negate : Bool
  pub out : OneOrMany Label
  pub priority : Option ℤ
  pub tag : Option Text

pub record InAddressRuleConfig : Type 0 where
  pub match_ip : Option (OneOrMany Text)
  pub match_port : Option (OneOrMany ℕ)
  pub negate : Bool
  pub out : OneOrMany Label
  pub priority : Option ℤ
  pub tag : Option Text

pub record InDomainRuleConfig : Type 0 where
  pub match : OneOrMany Text
  pub negate : Bool
  pub out : OneOrMany Label
  pub priority : Option ℤ
  pub tag : Option Text

pub record InDomainPatternRuleConfig : Type 0 where
  pub match : OneOrMany Text
  pub negate : Bool
  pub out : OneOrMany Label
  pub priority : Option ℤ
  pub tag : Option Text

pub record InFallbackRuleConfig : Type 0 where
  pub out : OneOrMany Label
  pub tag : Option Text

pub data InRuleConfig : Type 0 where
  geo_ip : InGeoIpRuleConfig → InRuleConfig
  address : InAddressRuleConfig → InRuleConfig
  domain : InDomainRuleConfig → InRuleConfig
  domain_pattern : InDomainPatternRuleConfig → InRuleConfig
  fallback : InFallbackRuleConfig → InRuleConfig

-- The networks of an address rule; an address that does not parse is a panic.
unfoldable pub parse_ips :
    (x : Externals) → Option (OneOrMany Text) → Option (Option (List x.IpNet))
parse_ips x none = some none
parse_ips x (some match_ip) = Option.map some (parse_all (parse_ip_net x) (into_vec match_ip))

-- `none` of the result is a panic: an invalid network or pattern in IN's own configuration.
module _ (x : Externals) where
  unfoldable pub into_rule : InRuleConfig → Option (DynRule x)
  into_rule (geo_ip config) = some (
      DynRule.geo_ip (record {
        matches = into_vec config.match;
        labels = into_vec config.out;
        priority = Option.get_or config.priority i64_min;
        negate = config.negate;
        tag = config.tag;
      }))
  into_rule (address config) =
      Option.map
        (λ match_ips. DynRule.address (record {
          match_ips = match_ips;
          match_ports = Option.map into_vec config.match_port;
          labels = into_vec config.out;
          priority = Option.get_or config.priority i64_min;
          negate = config.negate;
          tag = config.tag;
        }))
        (parse_ips x config.match_ip)
  into_rule (domain config) = some (
      DynRule.domain (record {
        matches = into_vec config.match;
        labels = into_vec config.out;
        priority = Option.get_or config.priority i64_min;
        negate = config.negate;
        tag = config.tag;
      }))
  into_rule (domain_pattern config) =
      Option.map
        (λ patterns. DynRule.domain_pattern (record {
          matches = patterns;
          labels = into_vec config.out;
          priority = Option.get_or config.priority i64_min;
          negate = config.negate;
          tag = config.tag;
        }))
        (parse_all x.parse_regex (into_vec config.match))
  into_rule (fallback config) =
      some (DynRule.fallback (record { labels = into_vec config.out; tag = config.tag }))
