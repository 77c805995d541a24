-- ===== src/Route/Examples.antt =====
-- The routing theorems at small inputs: an OUT that asks for one domain, and a fallback of IN.
use mathlib.Core.List.Permᴰ
use plug2proxy.Prelude.{
  ℕ, pos, ◌≡◌, ◌≢◌, refl, inl, true, false, none, some, List, [], ◌∷◌, Elem, map, ◌↔◌, insert_by,
  sort_by_key,
}
use plug2proxy.HashMap
use plug2proxy.HashMap.{set_insert, contains}
use plug2proxy.Net.{Text, IpAddr, SocketAddr}
use plug2proxy.Route.Label.{built_in, custom, direct}
use plug2proxy.Route.Externals.{Externals}
use plug2proxy.Route.Rule.{
  DynRule, dyn_rule, DomainRule, FallbackRule, matches_domain, match_domain_rule, match_fallback,
}
use plug2proxy.Route.Rule
use plug2proxy.Route.Rule.Subdomain.{IsWithin, matches_domain_iff}
use plug2proxy.Route.Config.{one}
use plug2proxy.Route.Config.Out.{OutRuleConfig, into_rule}
use plug2proxy.Route.Router
use plug2proxy.Route.Router.{
  Router, OutRules, Labels, new, push_last, group_loop, match_rules, match_groups, all_rules,
  update_rules_cache, register_tunnel,
}
use plug2proxy.Route.Router.Registry.{
  register, unregister, run, step, Refines, record_events, no_tunnels, run-new-Refines,
}
use plug2proxy.Route.Router.Cache.{IsCurrent}
use plug2proxy.Route.Ownership.{OutEvent, up, router_event, Origin, match-Origin}

abbrev externals : Externals
externals = record {
  IpNet = IpAddr;
  parse_net = λ text. none;
  new_net = λ ip prefix. some ip;
  net_contains = λ net ip. true;
  parse_ip = λ text. none;
  Regex = Text;
  parse_regex = λ text. some text;
  is_match = λ regex text. true;
  out_id_to_string = λ id. id ∷ [];
}

abbrev in_rule : DynRule externals
in_rule = DynRule.fallback (record { labels = built_in direct ∷ []; tag = none })

abbrev name : Text
name = 1 ∷ 2 ∷ []

abbrev config : OutRuleConfig
config =
    OutRuleConfig.domain (record { match = one name; negate = false; priority = none; tag = none })

abbrev out_rule : DynRule externals
out_rule = DynRule.domain (record {
  matches = name ∷ [];
  labels = custom (5 ∷ []) ∷ [];
  priority = pos 3;
  negate = false;
  tag = none;
})

abbrev same_order :
    List (ℕ × OutRules (DynRule externals)) → List (ℕ × OutRules (DynRule externals))
same_order m = m

two_events : register 5 8 (out_rule ∷ []) ∷ unregister 5 8 ∷ [] ≢ []
two_events = cc

abbrev up_event : List (OutEvent externals)
up_event = up 5 8 (config ∷ []) (pos 3) ∷ []

some_event : up_event ≢ []
some_event = cc

run-new-Refines_example :
    (last : Router (DynRule externals)) × (run
        (dyn_rule externals)
        same_order
        (new (in_rule ∷ []))
        (register 5 8 (out_rule ∷ []) ∷ unregister 5 8 ∷ [])
      ≡ some last)
    × (last.in_rules ≡ in_rule ∷ [])
    × Refines last.out_rules_map
        (record_events no_tunnels (register 5 8 (out_rule ∷ []) ∷ unregister 5 8 ∷ []))
    × IsCurrent (dyn_rule externals) last
run-new-Refines_example =
    run-new-Refines (dyn_rule externals) same_order (λ m. Permᴰ.refl m) (in_rule ∷ [])
      (register 5 8 (out_rule ∷ []) ∷ unregister 5 8 ∷ []) two_events

-- The router once the OUT's tunnel is up.
abbrev after_up : Router (DynRule externals)
after_up = record {
  in_rules = in_rule ∷ [];
  out_rules_map = (5, (out_rule ∷ [], 8 ∷ [])) ∷ [];
  rules_groups_cache = (out_rule ∷ []) ∷ (in_rule ∷ []) ∷ [];
}

after_up_lem :
    run
      (dyn_rule externals)
      same_order
      (new (in_rule ∷ []))
      (map (router_event externals) (up 5 8 (config ∷ []) (pos 3) ∷ []))
    ≡ some after_up
unfolding run step register_tunnel update_rules_cache group_loop push_last all_rules new sort_by_key
    insert_by HashMap.get HashMap.insert set_insert contains into_rule
after_up_lem = refl

abbrev address : SocketAddr
address = SocketAddr.v4 9 443

abbrev out_labels : Labels
out_labels = (custom (5 ∷ []), none) ∷ []

matched :
    Elem out_labels (Router.match (dyn_rule externals) (λ gs. gs) after_up address (some name) none)
unfolding Router.match match_groups match_rules Rule.match match_domain_rule match_fallback
    matches_domain
matched = inl refl

match-Origin_example :
    Origin externals (in_rule ∷ []) (up 5 8 (config ∷ []) (pos 3) ∷ []) (custom (5 ∷ []))
match-Origin_example =
    match-Origin externals same_order (λ m. Permᴰ.refl m) (λ gs. gs) (in_rule ∷ [])
      (up 5 8 (config ∷ []) (pos 3) ∷ []) after_up address (some name) none out_labels
      (custom (5 ∷ []), none) (λ g gs m. m) some_event after_up_lem matched (inl refl)

matches_domain_iff_example :
    (matches_domain (7 ∷ b'.' ∷ name) name ≡ true) ↔ IsWithin (7 ∷ b'.' ∷ name) name
matches_domain_iff_example = matches_domain_iff (7 ∷ b'.' ∷ name) name
