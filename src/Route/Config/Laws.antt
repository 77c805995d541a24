-- ===== src/Route/Config/Laws.antt =====
-- What a configured rule may do (src/lib/route/config).
use plug2proxy.Prelude.{
  ℕ, ℤ, ◌≡◌, refl, Bool, true, false, Option, none, some, List, arith, if◌then◌else◌,
}
use plug2proxy.Net.{Text, SocketAddr}
use plug2proxy.Route.Label.{Label}
use plug2proxy.Route.Externals.{Externals}
use plug2proxy.Route.Rule.{
  DynRule, match, match_geo_ip, match_address, match_domain_rule, match_domain_pattern,
  match_fallback,
}
use plug2proxy.Route.Config.Out.{OutRuleConfig, into_rule, out_labels}

-- The end of every `match`: the labels under a condition.
chosen-labels :
    (c : Bool) (own ls : List Label) → (if c then some own else none) ≡ some ls → ls ≡ own
chosen-labels c own ls h = ground arith

module _ {x : Externals} where
  -- The labels that a rule carries.
  abbrev pub labels : DynRule x → List Label
  labels (DynRule.geo_ip r) = r.labels
  labels (DynRule.address r) = r.labels
  labels (DynRule.domain r) = r.labels
  labels (DynRule.domain_pattern r) = r.labels
  labels (DynRule.fallback r) = r.labels

  -- A rule that matches gives all the labels that it carries, of whatever kind it is.
  pub match-labels :
      (rule : DynRule x) (address : SocketAddr) (name : Option Text)
      (region_codes : Option (List Text)) (any_matched : Bool) (ls : List Label)
      → match rule address name region_codes any_matched ≡ some ls
      → ls ≡ labels rule
  unfolding match match_geo_ip match_address match_domain_rule match_domain_pattern match_fallback
  match-labels (DynRule.geo_ip r) a name none b ls h = cc
  match-labels (DynRule.geo_ip r) a name (some codes) b ls h = chosen-labels _ r.labels ls h
  match-labels (DynRule.address r) a name codes b ls h = chosen-labels _ r.labels ls h
  match-labels (DynRule.domain r) a none codes b ls h = cc
  match-labels (DynRule.domain r) a (some d) codes b ls h = chosen-labels _ r.labels ls h
  match-labels (DynRule.domain_pattern r) a none codes b ls h = cc
  match-labels (DynRule.domain_pattern r) a (some d) codes b ls h = chosen-labels _ r.labels ls h
  match-labels (DynRule.fallback r) a name codes true ls h = cc
  match-labels (DynRule.fallback r) a name codes false ls h = chosen-labels true r.labels ls h

-- Every rule of an OUT carries the OUT's own id and no other label.
pub out_rule-labels :
    (x : Externals) (config : OutRuleConfig) (out_id : ℕ) (priority : ℤ)
    → labels (into_rule x config out_id priority) ≡ out_labels x out_id
unfolding into_rule
out_rule-labels x (OutRuleConfig.geo_ip c) out_id priority = refl
out_rule-labels x (OutRuleConfig.address c) out_id priority = refl
out_rule-labels x (OutRuleConfig.domain c) out_id priority = refl
out_rule-labels x (OutRuleConfig.domain_pattern c) out_id priority = refl
out_rule-labels x (OutRuleConfig.fallback c) out_id priority = refl
