-- ===== src/Route/Router/Entries.antt =====
-- The map of the router (src/lib/route/router.rs) has one entry for an OUT, after any history.
use plug2proxy.Prelude.{
  ℕ, nat_eq, ◌≡◌, sym, ◌∙◌, some-eq-some, subst, inl, inr, Bool-cases, Option-cases, some, List, [],
  ◌∷◌, is_empty,
}
use plug2proxy.HashMap
use plug2proxy.HashMap.{set_remove}
use plug2proxy.HashMap.Distinct.{Distinct, insert-Distinct, remove-Distinct}
use plug2proxy.Route.Rule.{RuleTrait}
use plug2proxy.Route.Router.{
  Router, OutRules, register_tunnel, unregister_tunnel, without_tunnel, update_rules_cache,
}
use plug2proxy.Route.Router.Cache.{cached, update_rules_cache_lem}
use plug2proxy.Route.Router.Registry.{Event, register, unregister, step, run}

module _ {R : Type 0} where
  without_tunnel-Distinct :
      (out_id tunnel_id : ℕ) (m : List (ℕ × OutRules R))
      → Distinct m
      → Distinct (without_tunnel out_id tunnel_id m)
  unfolding without_tunnel
  without_tunnel-Distinct out_id tunnel_id m d = elim (Option-cases (HashMap.get out_id m)) [
    | inl e ↦ rw (e, without_tunnel) d
    | inr ((rs, set), e) ↦ elim (Bool-cases (is_empty (set_remove tunnel_id set))) [
      | inl h ↦ rw (e, without_tunnel, h) (remove-Distinct out_id m d)
      | inr h ↦ rw (e, without_tunnel, h) (insert-Distinct out_id _ m d)
    ]
  ]

module _ {R : Type 0} (t : RuleTrait R)
    (order : List (ℕ × OutRules R) → List (ℕ × OutRules R)) where
  update-Distinct :
      (router next : Router R)
      → Distinct router.out_rules_map
      → update_rules_cache t order router ≡ some next
      → Distinct next.out_rules_map
  unfolding cached
  update-Distinct router next d e =
      subst (λ (r : Router R). Distinct r.out_rules_map)
        (some-eq-some (sym (update_rules_cache_lem t order router) ∙ e)) d

  step-Distinct :
      (router next : Router R) (e : Event R)
      → Distinct router.out_rules_map
      → step t order router e ≡ some next
      → Distinct next.out_rules_map
  unfolding step register_tunnel unregister_tunnel
  step-Distinct router next (register out_id tunnel_id rules) d h =
      update-Distinct _ next (insert-Distinct out_id _ router.out_rules_map d) h
  step-Distinct router next (unregister out_id tunnel_id) d h =
      update-Distinct _ next (without_tunnel-Distinct out_id tunnel_id router.out_rules_map d) h

  pub run-Distinct :
      (router last : Router R) (events : List (Event R))
      → Distinct router.out_rules_map
      → run t order router events ≡ some last
      → Distinct last.out_rules_map
  unfolding run
  run-Distinct router last [] d h =
      subst (λ (r : Router R). Distinct r.out_rules_map) (some-eq-some h) d
  run-Distinct router last (e ∷ events) d h = elim (Option-cases (step t order router e)) [
    | inl n ↦ cc (rw (n, run) at h)
    | inr (next, n) ↦
        run-Distinct next last events (step-Distinct router next e d n) (rw (n, run) at h)
  ]
