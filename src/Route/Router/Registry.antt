-- ===== src/Route/Router/Registry.antt =====
-- Which OUTs the router holds rules of, after any history of `register_tunnel` and
-- `unregister_tunnel` (src/lib/route/router.rs).
use mathlib.Core.Option
use mathlib.Core.List.{Permᴰ}
use plug2proxy.Prelude.{
  ℕ, nat_eq, ◌==◌, ==_eq, ◌≡◌, ◌≢◌, refl, subst, inl, inr, Bool, true, false, Bool-cases,
  Option-cases, Option, some, none, List, [], ◌∷◌, is_empty, arith, if◌then◌else◌, ◌⊎◌, ◌∙◌,
}
use plug2proxy.HashMap
use plug2proxy.HashMap.{
  contains, set_insert, set_remove, contains-set_insert, contains-set_remove, get-insert,
  get-remove,
}
use plug2proxy.Route.Rule.{RuleTrait}
use plug2proxy.Route.Router.{
  Router, OutRules, new, register_tunnel, unregister_tunnel, without_tunnel,
}
use plug2proxy.Route.Router.Cache.{IsCurrent, cached, update_rules_cache_lem, cached-IsCurrent}

set_insert-not_empty : (a : ℕ) (xs : List ℕ) → is_empty (set_insert a xs) ≡ false
unfolding set_insert contains
set_insert-not_empty a [] = refl
set_insert-not_empty a (x ∷ xs) = ground arith

contains_empty : (xs : List ℕ) (a : ℕ) → is_empty xs ≡ true → contains xs a ≡ false
unfolding contains
contains_empty [] a h = refl
contains_empty (x ∷ xs) a h = cc

pub data Event (R : Type 0) : Type 0 where
  register : ℕ → ℕ → List R → Event R
  unregister : ℕ → ℕ → Event R

-- What a client of the router may rely on: which tunnels are up, and the rules that an OUT gave last.
pub record Registry (R : Type 0) : Type 0 where
  pub live : ℕ → ℕ → Bool
  pub rules : ℕ → List R

module _ {R : Type 0} where
  abbrev pub no_tunnels : Registry R
  no_tunnels = record { live = λ out tunnel. false; rules = λ out. [] }

  abbrev pub record_event : Registry R → Event R → Registry R
  record_event s (register out_id tunnel_id rules) = record {
    live = λ out. λ tunnel.
        if out_id == out
        then (if tunnel_id == tunnel then true else s.live out tunnel)
        else s.live out tunnel;
    rules = λ out. if out_id == out then rules else s.rules out;
  }
  record_event s (unregister out_id tunnel_id) = record s {
    live = λ out. λ tunnel.
        if out_id == out
        then (if tunnel_id == tunnel then false else s.live out tunnel)
        else s.live out tunnel;
  }

  abbrev pub record_events : Registry R → List (Event R) → Registry R
  record_events s [] = s
  record_events s (e ∷ events) = record_events (record_event s e) events

  -- An entry stands for an OUT with a live tunnel, with its live tunnels and its last rules.
  abbrev pub Agrees : Option (OutRules R) → (ℕ → Bool) → List R → Type 0
  Agrees none live rules = (tunnel : ℕ) → live tunnel ≡ false
  Agrees (some (rs, tunnel_id_set)) live rules =
      (is_empty tunnel_id_set ≡ false)
      × (rs ≡ rules)
      × ((tunnel : ℕ) → contains tunnel_id_set tunnel ≡ live tunnel)

  abbrev pub Refines : List (ℕ × OutRules R) → Registry R → Type 0
  Refines m s = (out : ℕ) → Agrees (HashMap.get out m) (s.live out) (s.rules out)

  inserted :
      (before : Option (OutRules R)) (live : ℕ → Bool) (old rules : List R) (tunnel_id : ℕ)
      → Agrees before live old
      → Agrees
          (some (rules, set_insert tunnel_id (Option.get_or before ([], [])).1))
          (λ tunnel. if tunnel_id == tunnel then true else live tunnel)
          rules
  unfolding contains
  inserted none live old rules tunnel_id h = (
    set_insert-not_empty tunnel_id [],
    refl,
    λ tunnel. ground (arith, contains-set_insert tunnel_id tunnel [], h tunnel),
  )
  inserted (some (rs, set)) live old rules tunnel_id h = (
    set_insert-not_empty tunnel_id set,
    refl,
    λ tunnel. ground (arith, contains-set_insert tunnel_id tunnel set, h.2 tunnel),
  )

  abbrev rest_of : List R → List ℕ → Option (OutRules R)
  rest_of rs rest = if is_empty rest then none else some (rs, rest)

  removed :
      (rs : List R) (set : List ℕ) (live : ℕ → Bool) (rules : List R) (tunnel_id : ℕ)
      → Agrees (some (rs, set)) live rules
      → Agrees
          (rest_of rs (set_remove tunnel_id set))
          (λ tunnel. if tunnel_id == tunnel then false else live tunnel)
          rules
  removed rs set live rules tunnel_id h = elim (Bool-cases (is_empty (set_remove tunnel_id set))) [
    | inl e ↦ rw e (λ tunnel. ground (
      arith,
      contains_empty (set_remove tunnel_id set) tunnel,
      contains-set_remove tunnel_id tunnel set,
      h.2 tunnel,
    ))
    | inr e ↦
        rw e
          (e, h.1, λ tunnel. ground (arith, contains-set_remove tunnel_id tunnel set, h.2 tunnel))
  ]

  -- What `without_tunnel` leaves of the entry of an OUT.
  abbrev after_removal : ℕ → Option (OutRules R) → Option (OutRules R)
  after_removal tunnel_id none = none
  after_removal tunnel_id (some (rs, set)) = rest_of rs (set_remove tunnel_id set)

  get-without_tunnel :
      (out_id tunnel_id out : ℕ) (m : List (ℕ × OutRules R))
      → HashMap.get out (without_tunnel out_id tunnel_id m) ≡ (
          if out_id == out
          then after_removal tunnel_id (HashMap.get out_id m)
          else HashMap.get out m)
  unfolding without_tunnel
  get-without_tunnel out_id tunnel_id out m = elim (Option-cases (HashMap.get out_id m)) [
    | inl e ↦ rw (e, without_tunnel) (ground (arith, ==_eq out_id out))
    | inr ((rs, set), e) ↦ elim (Bool-cases (is_empty (set_remove tunnel_id set))) [
      | inl h ↦ rw (e, without_tunnel, h) (get-remove out_id out m)
      | inr h ↦ rw (e, without_tunnel, h) (get-insert out_id out (rs, set_remove tunnel_id set) m)
    ]
  ]

  removed_from :
      (before : Option (OutRules R)) (live : ℕ → Bool) (rules : List R) (tunnel_id : ℕ)
      → Agrees before live rules
      → Agrees
          (after_removal tunnel_id before)
          (λ tunnel. if tunnel_id == tunnel then false else live tunnel)
          rules
  removed_from none live rules tunnel_id h = λ tunnel. ground (arith, h tunnel)
  removed_from (some (rs, set)) live rules tunnel_id h = removed rs set live rules tunnel_id h

  if_Agrees :
      (b : Bool) (x y : Option (OutRules R)) (live live' : ℕ → Bool) (rules : List R)
      → (b ≡ true → Agrees x live rules)
      → (b ≡ false → Agrees y live' rules)
      → Agrees (if b then x else y) (λ tunnel. if b then live tunnel else live' tunnel) rules
  if_Agrees true x y live live' rules hit miss = hit refl
  if_Agrees false x y live live' rules hit miss = miss refl

  abbrev new_entry : List (ℕ × OutRules R) → ℕ → ℕ → List R → OutRules R
  new_entry m out_id tunnel_id rules =
      (rules, set_insert tunnel_id (Option.get_or (HashMap.get out_id m) ([], [])).1)

  register-Refines :
      (m : List (ℕ × OutRules R)) (s : Registry R) (out_id tunnel_id : ℕ) (rules : List R)
      → Refines m s
      → Refines
          (HashMap.insert out_id (new_entry m out_id tunnel_id rules) m)
          (record_event s (register out_id tunnel_id rules))
  register-Refines m s out_id tunnel_id rules h out = rw (get-insert out_id out) (
      if_Agrees (out_id == out) _ _ _ _ _
        (λ e. rw e (
          subst
            (λ o.
              Agrees (some (new_entry m out_id tunnel_id rules))
                (λ tunnel. if tunnel_id == tunnel then true else s.live o tunnel) rules)
            (==_eq out_id out e)
            (inserted (HashMap.get out_id m) (s.live out_id) (s.rules out_id) rules tunnel_id
              (h out_id))))
        (λ e. rw e (h out)))

  unregister-Refines :
      (m : List (ℕ × OutRules R)) (s : Registry R) (out_id tunnel_id : ℕ)
      → Refines m s
      → Refines (without_tunnel out_id tunnel_id m) (record_event s (unregister out_id tunnel_id))
  unregister-Refines m s out_id tunnel_id h out = rw (get-without_tunnel out_id tunnel_id out m) (
      if_Agrees (out_id == out) _ _ _ _ _
        (λ e.
          subst
            (λ o.
              Agrees (after_removal tunnel_id (HashMap.get out_id m))
                (λ tunnel. if tunnel_id == tunnel then false else s.live o tunnel) (s.rules o))
            (==_eq out_id out e)
            (removed_from (HashMap.get out_id m) (s.live out_id) (s.rules out_id) tunnel_id
              (h out_id)))
        (λ e. h out))

module _ {R : Type 0} (t : RuleTrait R)
    (order : List (ℕ × OutRules R) → List (ℕ × OutRules R)) where
  unfoldable pub step : Router R → Event R → Option (Router R)
  step router (register out_id tunnel_id rules) =
      register_tunnel t order router out_id tunnel_id rules
  step router (unregister out_id tunnel_id) = unregister_tunnel t order router out_id tunnel_id

  unfoldable pub run : Router R → List (Event R) → Option (Router R)
  unfolding step
  run router [] = some router
  run router (e ∷ events) = elim (step router e) [ none ↦ none | some next ↦ run next events ]

  module _ (order_perm : (m : List (ℕ × OutRules R)) → Permᴰ (order m) m) where
    -- A step does not panic, keeps the rules of IN, follows the registry and leaves the cache current.
    pub step_lem :
        (router : Router R) (s : Registry R) (e : Event R)
        → Refines router.out_rules_map s
        → (next : Router R) × (step router e ≡ some next)
          × (next.in_rules ≡ router.in_rules)
          × Refines next.out_rules_map (record_event s e)
          × IsCurrent t next
    unfolding step register_tunnel unregister_tunnel cached
    step_lem router s (register out_id tunnel_id rules) h = (
      cached t order _,
      update_rules_cache_lem t order _,
      refl,
      register-Refines router.out_rules_map s out_id tunnel_id rules h,
      cached-IsCurrent t order order_perm _,
    )
    step_lem router s (unregister out_id tunnel_id) h = (
      cached t order _,
      update_rules_cache_lem t order _,
      refl,
      unregister-Refines router.out_rules_map s out_id tunnel_id h,
      cached-IsCurrent t order order_perm _,
    )

    run_lem :
        (router : Router R) (s : Registry R) (events : List (Event R))
        → Refines router.out_rules_map s
        → IsCurrent t router ⊎ (events ≢ [])
        → (last : Router R) × (run router events ≡ some last)
          × (last.in_rules ≡ router.in_rules)
          × Refines last.out_rules_map (record_events s events)
          × IsCurrent t last
    unfolding run
    run_lem router s [] h (inl c) = (router, refl, refl, h, c)
    run_lem router s [] h (inr n) = absurd (n refl)
    run_lem router s (e ∷ events) h c =
        let (next, stepped, same, h', current) = step_lem router s e h in
        let (last, ran, same', h'', current') =
          run_lem next (record_event s e) events h' (inl current) in
        (last, rw (stepped, run) ran, same' ∙ same, h'', current')

    -- From `Router::new`, any history of at least one `register_tunnel` or `unregister_tunnel` runs
    -- without a panic to a router that still has the rules of IN; whose map has an entry for an OUT
    -- exactly while the OUT has a live tunnel, with its live tunnels and the rules it gave last; and
    -- whose cache is current: it holds the rules of IN and of the map's OUTs, each as often as there,
    -- in groups of one priority that rises from group to group. The order in which the hash map
    -- yields its entries is any that permutes them.
    pub run-new-Refines :
        (rules : List R) (events : List (Event R))
        → events ≢ []
        → (last : Router R) × (run (new rules) events ≡ some last)
          × (last.in_rules ≡ rules)
          × Refines last.out_rules_map (record_events no_tunnels events)
          × IsCurrent t last
    unfolding new HashMap.get
    run-new-Refines rules events n =
        run_lem (new rules) no_tunnels events (λ out. λ tunnel. refl) (inr n)
