-- ===== src/Route/Config/Out.antt =====
-- src/lib/route/config/out_config.rs: the rules that an OUT asks IN to route by.
use plug2proxy.Prelude.{ℕ, ℤ, Bool, Option, List, [], ◌∷◌, filter_map}
use mathlib.Core.Option
use plug2proxy.Net.{Text}
use plug2proxy.Route.Label.{Label, custom}
use plug2proxy.Route.Externals.{Externals}
use plug2proxy.Route.Rule.{DynRule}
use plug2proxy.Route.Config.{OneOrMany, into_vec, parse_ip_net}

pub record OutGeoIpRuleConfig : Type 0 where
  pub match : OneOrMany Text
  pub negate : Bool
  pub priority : Option ℤ
  pub tag : Option Text

pub record OutAddressRuleConfig : Type 0 where
  pub match_ip : Option (OneOrMany Text)
  pub match_port : Option (OneOrMany ℕ)
  pub negate : Bool
  pub priority : Option ℤ
  pub tag : Option Text

pub record OutDomainRuleConfig : Type 0 where
  pub match : OneOrMany Text
  pub negate : Bool
  pub priority : Option ℤ
  pub tag : Option Text

pub record OutDomainPatternRuleConfig : Type 0 where
  pub match : OneOrMany Text
  pub negate : Bool
  pub priority : Option ℤ
  pub tag : Option Text

pub record OutFallbackRuleConfig : Type 0 where
  pub tag : Option Text

pub data OutRuleConfig : Type 0 where
  geo_ip : OutGeoIpRuleConfig → OutRuleConfig
  address : OutAddressRuleConfig → OutRuleConfig
  domain : OutDomainRuleConfig → OutRuleConfig
  domain_pattern : OutDomainPatternRuleConfig → OutRuleConfig
  fallback : OutFallbackRuleConfig → OutRuleConfig

module _ (x : Externals) where
  -- The one label of every rule of an OUT: its own id.
  abbrev pub out_labels : ℕ → List Label
  out_labels out_id = custom (x.out_id_to_string out_id) ∷ []

  -- What does not parse is logged and left out.
  unfoldable pub into_rule : OutRuleConfig → ℕ → ℤ → DynRule x
  into_rule (geo_ip config) out_id priority_default = DynRule.geo_ip (record {
    matches = into_vec config.match;
    labels = out_labels out_id;
    priority = Option.get_or config.priority priority_default;
    negate = config.negate;
    tag = config.tag;
  })
  into_rule (address config) out_id priority_default = DynRule.address (record {
    match_ips =
        Option.map (λ match_ip. filter_map (parse_ip_net x) (into_vec match_ip)) config.match_ip;
    match_ports = Option.map into_vec config.match_port;
    labels = out_labels out_id;
    priority = Option.get_or config.priority priority_default;
    negate = config.negate;
    tag = config.tag;
  })
  into_rule (domain config) out_id priority_default = DynRule.domain (record {
    matches = into_vec config.match;
    labels = out_labels out_id;
    priority = Option.get_or config.priority priority_default;
    negate = config.negate;
    tag = config.tag;
  })
  into_rule (domain_pattern config) out_id priority_default = DynRule.domain_pattern (record {
    matches = filter_map x.parse_regex (into_vec config.match);
    labels = out_labels out_id;
    priority = Option.get_or config.priority priority_default;
    negate = config.negate;
    tag = config.tag;
  })
  into_rule (fallback config) out_id priority_default =
      DynRule.fallback (record { labels = out_labels out_id; tag = config.tag })
