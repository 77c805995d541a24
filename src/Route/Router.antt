-- ===== src/Route/Router.antt =====
-- src/lib/route/router.rs, over any implementation of the `Rule` trait. A mutex guards each field and
-- every method takes it for the whole of its work on that field, so a method is a function of the state.
pub mod Groups
pub mod Cache
pub mod Registry
pub mod Match
pub mod Entries
use plug2proxy.Prelude.{
  ℕ, ℤ, beq_ℤ, nat_eq, Bool, true, false, not, ◌||◌, Option, none, some, List, [], ◌∷◌, ◌++◌, map,
  if◌then◌else◌, is_empty, flat_map, sort_by_key,
}
use mathlib.Core.Option
use plug2proxy.Net.{Text, SocketAddr}
use plug2proxy.HashMap
use plug2proxy.HashMap.{set_insert, set_remove}
use plug2proxy.Route.Label.{Label}
use plug2proxy.Route.Rule.{RuleTrait}

-- The labels that matched in one group of rules, with the tags of the rules.
abbrev pub Labels : Type 0
Labels = List (Label × Option Text)

-- The rules of an OUT, and its tunnels.
abbrev pub OutRules : Type 0 → Type 0
OutRules R = List R × List ℕ

pub record Router (R : Type 0) : Type 0 where
  pub in_rules : List R
  pub out_rules_map : List (ℕ × OutRules R)
  pub rules_groups_cache : List (List R)

module _ {R : Type 0} where
  -- `Router::new`, on the rules that `into_rule` gave.
  unfoldable pub new : List R → Router R
  new rules = record { in_rules = rules; out_rules_map = []; rules_groups_cache = rules ∷ [] }

  -- `rules_groups.last_mut().unwrap().push(rule)`: `none` is the panic of `unwrap`.
  unfoldable pub push_last : List (List R) → R → Option (List (List R))
  push_last [] rule = none
  push_last (group ∷ []) rule = some ((group ++ rule ∷ []) ∷ [])
  push_last (group ∷ next ∷ groups) rule = Option.map (◌∷◌ group) (push_last (next ∷ groups) rule)

module _ {R : Type 0} (t : RuleTrait R) where
  abbrev pub is_at : Option ℤ → ℤ → Bool
  is_at none priority = false
  is_at (some cursor) priority = beq_ℤ cursor priority

  -- The `for` of `update_rules_cache`, with `rules_groups` and `priority_cursor`.
  unfoldable pub group_loop : List (List R) → Option ℤ → List R → Option (List (List R))
  group_loop rules_groups priority_cursor [] = some rules_groups
  group_loop rules_groups priority_cursor (rule ∷ rules) =
      elim (is_at priority_cursor (t.priority rule)) [
        | true ↦ elim (push_last rules_groups rule) [
          | none ↦ none
          | some pushed ↦ group_loop pushed priority_cursor rules
        ]
        | false ↦ group_loop (rules_groups ++ (rule ∷ []) ∷ []) (some (t.priority rule)) rules
      ]

  -- `labels.extend_from_slice` of what a rule matched, with the tag of the rule.
  abbrev pub extend : R → Option (List Label) → Labels → Labels
  extend rule none labels = labels
  extend rule (some matching_labels) labels =
      labels ++ map (λ label. (label, t.tag rule)) matching_labels

  -- The fold over the rules of a group.
  unfoldable pub match_rules :
      SocketAddr → Option Text → Option (List Text) → Bool → Labels → List R → Labels
  match_rules address domain region_codes already_matched labels [] = labels
  match_rules address domain region_codes already_matched labels (rule ∷ rules) =
      let any_matched = already_matched || not (is_empty labels) in
      match_rules address domain region_codes already_matched
        (extend rule (t.match rule address domain region_codes any_matched) labels) rules

  -- `labels_groups.push(labels)`, unless there is nothing to push.
  abbrev pub push_labels : List Labels → Labels → List Labels
  push_labels labels_groups labels =
      if is_empty labels then labels_groups else labels_groups ++ labels ∷ []

  -- The fold over the groups.
  unfoldable pub match_groups :
      SocketAddr → Option Text → Option (List Text) → List Labels → List (List R) → List Labels
  match_groups address domain region_codes labels_groups [] = labels_groups
  match_groups address domain region_codes labels_groups (rules ∷ groups) =
      let labels =
        match_rules address domain region_codes (not (is_empty labels_groups)) [] rules in
      match_groups address domain region_codes (push_labels labels_groups labels) groups

-- The block of `unregister_tunnel` that holds the lock of the map.
unfoldable pub without_tunnel : {R : Type 0} → ℕ → ℕ → List (ℕ × OutRules R) → List (ℕ × OutRules R)
without_tunnel out_id tunnel_id out_rules_map = elim (HashMap.get out_id out_rules_map) [
  | none ↦ out_rules_map
  | some (rules, tunnel_id_set) ↦
      let rest = set_remove tunnel_id tunnel_id_set in
      if is_empty rest
      then HashMap.remove out_id out_rules_map
      else HashMap.insert out_id (rules, rest) out_rules_map
]

-- `unique` is `itertools::Itertools::unique`.
unfoldable pub match :
    {R : Type 0} (t : RuleTrait R) (unique : List Labels → List Labels)
    → Router R
    → SocketAddr
    → Option Text
    → Option (List Text)
    → List Labels
match t unique router address domain region_codes =
    unique (match_groups t address domain region_codes [] router.rules_groups_cache)

-- `order` is the order in which the hash map yields its entries.
module _ {R : Type 0} (t : RuleTrait R)
    (order : List (ℕ × OutRules R) → List (ℕ × OutRules R)) where
  unfoldable pub all_rules : Router R → List R
  all_rules router = router.in_rules ++ flat_map (λ e. e.1.0) (order router.out_rules_map)

  unfoldable pub update_rules_cache : Router R → Option (Router R)
  update_rules_cache router =
      Option.map (λ groups. record router { rules_groups_cache = groups })
        (group_loop t [] none (sort_by_key t.priority (all_rules router)))

  -- `rules` are the configurations after `into_rule`.
  unfoldable pub register_tunnel : Router R → ℕ → ℕ → List R → Option (Router R)
  register_tunnel router out_id tunnel_id rules =
      let (_, tunnel_id_set) = Option.get_or (HashMap.get out_id router.out_rules_map) ([], []) in
      update_rules_cache (record router {
        out_rules_map =
            HashMap.insert out_id (rules, set_insert tunnel_id tunnel_id_set) router.out_rules_map;
      })

  unfoldable pub unregister_tunnel : Router R → ℕ → ℕ → Option (Router R)
  unregister_tunnel router out_id tunnel_id =
      update_rules_cache
        (record router { out_rules_map = without_tunnel out_id tunnel_id router.out_rules_map })
