-- ===== src/Route/Ownership.antt =====
-- The routes that an OUT can ask for: src/lib/route/config/out_config.rs and
-- src/lib/route/router.rs together.
use mathlib.Core.List.{Permᴰ}
use plug2proxy.Prelude.{
  ℕ, ℤ, nat_eq, ◌==◌, ==_eq, ==_refl, ◌≡◌, ◌≢◌, refl, sym, ◌∙◌, subst, ◌⊎◌, inl, inr, Bool, true,
  Bool-cases, Option, some, List, [], ◌∷◌, ◌++◌, map, arith, All, All-elem, Elem, Elem-append,
  Elem-perm, flat_map, flat_map-Elem, some-eq-some,
}
use plug2proxy.HashMap.{contains}
use plug2proxy.HashMap.Distinct.{Distinct, get-Elem}
use plug2proxy.Net.{Text, SocketAddr}
use plug2proxy.Route.Label.{Label, custom}
use plug2proxy.Route.Externals.{Externals}
use plug2proxy.Route.Rule.{DynRule, dyn_rule}
use plug2proxy.Route.Config.Out.{OutRuleConfig, into_rule, out_labels}
use plug2proxy.Route.Config.Laws.{labels, match-labels, out_rule-labels}
use plug2proxy.Route.Router.{Router, OutRules, Labels, new, match}
use plug2proxy.Route.Router.Entries.{run-Distinct}
use plug2proxy.Route.Router.Cache.{IsCurrent, cached}
use plug2proxy.Route.Router.Match.{match-IsFrom}
use plug2proxy.Route.Router.Registry.{
  Event, register, unregister, Registry, no_tunnels, record_event, record_events, Agrees, Refines,
  run, run-new-Refines,
}

module _ (x : Externals) where
  -- A tunnel comes up with the rules of its OUT and their default priority, or goes down.
  pub data OutEvent : Type 0 where
    up : ℕ → ℕ → List OutRuleConfig → ℤ → OutEvent
    down : ℕ → ℕ → OutEvent

  -- The call of the router that the event leads to, with `into_rule` made.
  abbrev pub router_event : OutEvent → Event (DynRule x)
  router_event (up out_id tunnel_id configs priority) =
      register out_id tunnel_id (map (λ config. into_rule x config out_id priority) configs)
  router_event (down out_id tunnel_id) = unregister out_id tunnel_id

  abbrev Owned : ℕ → List (DynRule x) → Type 0
  Owned out = All (λ rule. labels rule ≡ out_labels x out)

  Owned-into_rule :
      (out : ℕ) (priority : ℤ) (configs : List OutRuleConfig)
      → Owned out (map (λ config. into_rule x config out priority) configs)
  Owned-into_rule out priority [] = tt
  Owned-into_rule out priority (c ∷ configs) =
      (out_rule-labels x c out priority, Owned-into_rule out priority configs)

  record_event-Owned :
      (s : Registry (DynRule x)) (e : OutEvent)
      → ((out : ℕ) → Owned out (s.rules out))
      → (out : ℕ) → Owned out ((record_event s (router_event e)).rules out)
  record_event-Owned s (up out_id tunnel_id configs priority) h out =
      elim (Bool-cases (out_id == out)) [
        | inl e ↦ rw e (
            subst (λ o. Owned o (map (λ config. into_rule x config out_id priority) configs))
              (==_eq out_id out e) (Owned-into_rule out_id priority configs))
        | inr e ↦ rw e (h out)
      ]
  record_event-Owned s (down out_id tunnel_id) h out = h out

  record_events-Owned :
      (s : Registry (DynRule x)) (events : List OutEvent)
      → ((out : ℕ) → Owned out (s.rules out))
      → (out : ℕ) → Owned out ((record_events s (map router_event events)).rules out)
  record_events-Owned s [] h = h
  record_events-Owned s (e ∷ events) h =
      record_events-Owned (record_event s (router_event e)) events (record_event-Owned s e h)

  -- An entry of the map that agrees with the registry has a live tunnel.
  has_tunnel :
      (rules : List (DynRule x)) (set : List ℕ) (live : ℕ → Bool) (last : List (DynRule x))
      → Agrees (some (rules, set)) live last
      → (tunnel : ℕ) × (live tunnel ≡ true)
  unfolding contains
  has_tunnel rules [] live last h = absurd (ground (arith, h.0))
  has_tunnel rules (t ∷ set) live last h = (t, ground (arith, h.2 t, ==_refl t))

  -- Where a label may come from: a rule of IN that carries it, or an OUT with a live tunnel, whose
  -- id it then is.
  abbrev pub Origin : List (DynRule x) → List OutEvent → Label → Type 0
  Origin in_rules events label =
      ((rule : DynRule x) × Elem rule in_rules × Elem label (labels rule))
      ⊎ ((out : ℕ) × (tunnel : ℕ) × ((record_events no_tunnels (map router_event events)).live out
              tunnel
            ≡ true)
          × (label ≡ custom (x.out_id_to_string out)))

  module _ (order : List (ℕ × OutRules (DynRule x)) → List (ℕ × OutRules (DynRule x)))
      (order_perm : (m : List (ℕ × OutRules (DynRule x))) → Permᴰ (order m) m) where
    own_label :
        (out : ℕ) (label : Label)
        → Elem label (out_labels x out)
        → label ≡ custom (x.out_id_to_string out)
    own_label out label (inl e) = sym e
    own_label out label (inr m) = absurd m

    entry-Origin :
        (in_rules : List (DynRule x)) (events : List OutEvent) (out : ℕ) (rs : List (DynRule x))
        (set : List ℕ) (rule : DynRule x) (label : Label)
        → (let s = record_events no_tunnels (map router_event events) in
            Agrees (some (rs, set)) (s.live out) (s.rules out))
        → Elem rule rs
        → Elem label (labels rule)
        → Origin in_rules events label
    entry-Origin in_rules events out rs set rule label agree inside k =
        let s = record_events no_tunnels (map router_event events) in
        let (tunnel, is_up) = has_tunnel rs set (s.live out) (s.rules out) agree in
        let owned =
          All-elem (λ rule. labels rule ≡ out_labels x out) (s.rules out) rule
            (record_events-Owned no_tunnels events (λ out. tt) out)
            (subst (Elem rule) agree.1 inside) in
        inr (out, tunnel, is_up, own_label out label (subst (Elem label) owned k))

    rule-Origin :
        (in_rules : List (DynRule x)) (events : List OutEvent) (last : Router (DynRule x))
        (rule : DynRule x) (label : Label)
        → last.in_rules ≡ in_rules
        → Refines last.out_rules_map (record_events no_tunnels (map router_event events))
        → Distinct last.out_rules_map
        → Elem rule (last.in_rules ++ flat_map (λ e. e.1.0) last.out_rules_map)
        → Elem label (labels rule)
        → Origin in_rules events label
    rule-Origin in_rules events last rule label same refines distinct m k =
        let s = record_events no_tunnels (map router_event events) in
        elim (Elem-append last.in_rules _ rule m) [
          | inl here ↦ inl (rule, subst (Elem rule) same here, k)
          | inr there ↦
              let (entry, e, inside) =
                flat_map-Elem (λ (e : ℕ × OutRules (DynRule x)). e.1.0) last.out_rules_map rule
                  there in
              entry-Origin in_rules events entry.0 entry.1.0 entry.1.1 rule label
                (subst (λ o. Agrees o (s.live entry.0) (s.rules entry.0))
                  (get-Elem entry.0 entry.1 last.out_rules_map distinct e) (refines entry.0))
                inside k
        ]

    -- After any history of at least one tunnel coming up or going down, every label that the router gives for a
    -- request is a label of one of IN's own rules, or the id of an OUT that has a live tunnel: an OUT
    -- draws traffic to nobody but itself, and to itself only while a tunnel of it is up.
    pub match-Origin :
        (unique : List Labels → List Labels) (in_rules : List (DynRule x)) (events : List OutEvent)
        (last : Router (DynRule x)) (address : SocketAddr) (domain : Option Text)
        (region_codes : Option (List Text)) (g : Labels) (l : Label × Option Text)
        → ((g : Labels) (gs : List Labels) → Elem g (unique gs) → Elem g gs)
        → events ≢ []
        → run (dyn_rule x) order (new in_rules) (map router_event events) ≡ some last
        → Elem g (match (dyn_rule x) unique last address domain region_codes)
        → Elem l g
        → Origin in_rules events l.0
    unfolding new
    match-Origin unique in_rules events last address domain region_codes g l unique_elem n ran m k =
        let (last', ran', same, refines, current) =
          run-new-Refines (dyn_rule x) order order_perm in_rules (map router_event events)
            (map-ne-nil events n) in
        let e = some-eq-some (sym ran' ∙ ran) in
        let (rule, cached, from) =
          match-IsFrom (dyn_rule x) address domain region_codes unique last unique_elem g l m k in
        let current' : IsCurrent (dyn_rule x) last = subst (IsCurrent (dyn_rule x)) e current in
        rule-Origin in_rules events last rule l.0
          (subst (λ (r : Router (DynRule x)). r.in_rules ≡ in_rules) e same)
          (subst
            (λ (r : Router (DynRule x)).
              Refines r.out_rules_map (record_events no_tunnels (map router_event events)))
            e refines)
          (run-Distinct (dyn_rule x) order (new in_rules) last (map router_event events) tt ran)
          (Elem-perm rule current'.complete cached)
          (subst (Elem l.0) (match-labels rule address domain region_codes from.0 from.1 from.2)
            from.3)
      where
        map-ne-nil : (es : List OutEvent) → es ≢ [] → map router_event es ≢ []
        map-ne-nil [] n e = n refl
        map-ne-nil (e ∷ es) n h = cc
