-- ===== src/Route/Router/Cache.antt =====
-- The cache of rule groups after `register_tunnel` and `unregister_tunnel`
-- (src/lib/route/router.rs).
use mathlib.Core.List.{Permᴰ}
use mathlib.Core.List.Permᴰ
use plug2proxy.Prelude.{
  ℕ, ◌≡◌, some, List, ◌++◌, flat_map, flat_map-perm, sort_by_key, sort_by_key-SortedBy,
  sort_by_key-perm, perm_of_eq,
}
use plug2proxy.Route.Rule.{RuleTrait}
use plug2proxy.Route.Router.{Router, OutRules, all_rules, update_rules_cache}
use plug2proxy.Route.Router.Groups.{concat, runs, group_loop-runs, concat-runs, Runs, runs-Runs}

module _ {R : Type 0} (t : RuleTrait R) where
  -- The cache holds the rules of IN and those of every OUT in the map, each as often as it stands
  -- there, in groups of one priority that rises from group to group.
  pub record IsCurrent (router : Router R) : Type 0 where
    pub grouped : Runs t router.rules_groups_cache
    pub complete :
        Permᴰ
          (concat router.rules_groups_cache)
          (router.in_rules ++ flat_map (λ e. e.1.0) router.out_rules_map)

module _ {R : Type 0} (t : RuleTrait R)
    (order : List (ℕ × OutRules R) → List (ℕ × OutRules R)) where
  unfoldable pub cached : Router R → Router R
  cached router = record router {
    rules_groups_cache = runs t (sort_by_key t.priority (all_rules t order router));
  }

  pub update_rules_cache_lem :
      (router : Router R) → update_rules_cache t order router ≡ some (cached router)
  unfolding update_rules_cache cached
  update_rules_cache_lem router = rw (group_loop-runs t _)

  pub cached-IsCurrent :
      ((m : List (ℕ × OutRules R)) → Permᴰ (order m) m)
      → (router : Router R) → IsCurrent t (cached router)
  unfolding cached all_rules
  cached-IsCurrent order_perm router = record {
    grouped = runs-Runs t _ (sort_by_key-SortedBy t.priority (all_rules t order router));
    complete =
        Permᴰ.trans (perm_of_eq (concat-runs t (sort_by_key t.priority (all_rules t order router))))
          (Permᴰ.trans (sort_by_key-perm t.priority (all_rules t order router)) (
            Permᴰ.append_left router.in_rules
              (flat_map-perm (λ (e : ℕ × OutRules R). e.1.0) (order_perm router.out_rules_map))));
  }
