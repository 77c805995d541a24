-- ===== src/Manager/Available.antt =====
-- The tunnels that connections are given (src/lib/in/tunnel_manager.rs), over everything that came up
-- and closed before.
use mathlib.Core.Option
use mathlib.Core.List.{Permᴰ}
use plug2proxy.Prelude.{
  ℕ, ◌≤ℤ◌, ◌↔◌, ◌≢◌, SortedBy, ◌≡◌, refl, sym, ap, subst, Bool, true, Option-cases, nat_eq, Option,
  none, some, List, [], ◌⊎◌, inl, inr, Elem,
}
use plug2proxy.Net.{Text}
use plug2proxy.HashMap
use plug2proxy.HashMap.{Elem-get, get-insert, get-remove}
use plug2proxy.HashMap.Distinct.{get-Elem}
use plug2proxy.Route.Label.{Label, built_in, custom, direct, proxy, any, label_eq}
use plug2proxy.Route.Router.{Labels}
use plug2proxy.Manager.{
  InTunnel, TunnelManager, new_manager, AnyInTunnel, through, direct_tunnel, select_labelled,
  select_tunnel, offered_labels, select_from_tunnels,
}
use plug2proxy.Manager.Select.{select_from_tunnels-IsTop, select_from_tunnels-none}
use plug2proxy.Manager.Choice.{ServesThrough, Serves, labels_groups_loop-Chosen}
use plug2proxy.Manager.Choice.Unserved.{labels_groups_loop-none}
use plug2proxy.Manager.Offers.{tunnels_at, update_label_to_tunnels_map-offers}
use plug2proxy.Manager.Live.{ManagerEvent, manage_all, IsConsistent, run-IsConsistent}

module _ (out_text : ℕ → Text) where
  -- The tunnel is up, is active, and offers the label.
  abbrev pub Available : TunnelManager → (InTunnel → Bool) → Label → InTunnel → Type 0
  Available self is_active label t =
      (HashMap.get t.id self.tunnel_map ≡ some t)
      × (is_active t ≡ true)
      × Elem label (offered_labels out_text t)

  -- A tunnel that is available for the label, and before which no other goes.
  abbrev pub Best : TunnelManager → (InTunnel → Bool) → Label → AnyInTunnel → Type 0
  Best self is_active label c =
      (t : InTunnel) × (c ≡ through t)
      × Available self is_active label t
      × ((q : InTunnel) → Available self is_active label q → t.priority ≤ℤ q.priority)

  -- What a connection with the label may be given.
  abbrev pub Fits : TunnelManager → (InTunnel → Bool) → Label → AnyInTunnel → Type 0
  Fits self is_active (built_in direct) c = c ≡ direct_tunnel
  Fits self is_active (built_in proxy) c = Best self is_active (built_in proxy) c
  Fits self is_active (built_in any) c =
      (c ≡ direct_tunnel) ⊎ Best self is_active (built_in proxy) c
  Fits self is_active (custom name) c = Best self is_active (custom name) c

module _ (out_text : ℕ → Text) (order : List (ℕ × InTunnel) → List (ℕ × InTunnel)) where
  module _ (order_perm : (m : List (ℕ × InTunnel)) → Permᴰ (order m) m) where
    module _ (self : TunnelManager) (consistent : IsConsistent out_text order self)
        (is_active : InTunnel → Bool) where
      offers :
          (label : Label)
          → SortedBy (λ (t : InTunnel). t.priority) (tunnels_at label self.label_to_tunnels_map)
            × ((t : InTunnel)
                → Elem t (tunnels_at label self.label_to_tunnels_map) ↔ (
                    ((id : ℕ) × Elem (id, t) self.tunnel_map)
                    × Elem label (offered_labels out_text t)))
      offers label =
          rw consistent.current
            (update_label_to_tunnels_map-offers out_text order order_perm self.tunnel_map label)

      Available-offered :
          (label : Label) (t : InTunnel)
          → Available out_text self is_active label t
          → Elem t (tunnels_at label self.label_to_tunnels_map)
      Available-offered label t (up, active, has) =
          ((offers label).1 t).1 ((t.id, Elem-get t.id t self.tunnel_map up), has)

      offered-up :
          (label : Label) (t : InTunnel)
          → Elem t (tunnels_at label self.label_to_tunnels_map)
          → (HashMap.get t.id self.tunnel_map ≡ some t) × Elem label (offered_labels out_text t)
      offered-up label t m =
          let ((id, entry), has) = ((offers label).1 t).0 m in
          let up = get-Elem id t self.tunnel_map consistent.distinct entry in
          (
            subst (λ i. HashMap.get i self.tunnel_map ≡ some t) (sym (consistent.keyed id t up)) up,
            has,
          )

      select_labelled-Best :
          (index : ℕ) (label : Label) (c : AnyInTunnel)
          → ServesThrough is_active self.label_to_tunnels_map index label c
          → Best out_text self is_active label c
      unfolding select_labelled
      select_labelled-Best index label c (t, e, h) =
          elim (Option-cases (HashMap.get label self.label_to_tunnels_map)) [
            | inl n ↦ cc (rw (n, select_labelled) at h)
            | inr (tunnels, n) ↦
                let same : tunnels_at label self.label_to_tunnels_map ≡ tunnels =
                  ap (λ o. Option.get_or o []) n in
                let sorted =
                  subst (SortedBy (λ (t : InTunnel). t.priority)) same (offers label).0 in
                let (m, active, least) =
                  select_from_tunnels-IsTop is_active tunnels index t sorted
                    (rw (n, select_labelled) at h) in
                let (up, has) = offered-up label t (subst (Elem t) (sym same) m) in
                (
                  t,
                  e,
                  (up, active, has),
                  λ q a. least q (subst (Elem q) same (Available-offered label q a)) a.1,
                )
          ]

      Serves-Fits :
          (index : ℕ) (label : Label) (c : AnyInTunnel)
          → Serves is_active self.label_to_tunnels_map index label c
          → Fits out_text self is_active label c
      Serves-Fits index (built_in direct) c v = v
      Serves-Fits index (built_in proxy) c v = select_labelled-Best index (built_in proxy) c v
      Serves-Fits index (built_in any) c (inl v) = inl v
      Serves-Fits index (built_in any) c (inr v) =
          inr (select_labelled-Best index (built_in proxy) c v)
      Serves-Fits index (custom name) c v = select_labelled-Best index (custom name) c v

      Available-Serves :
          (index : ℕ) (label : Label) (t : InTunnel)
          → Available out_text self is_active label t
          → (u : InTunnel) × (select_labelled is_active self.label_to_tunnels_map index label
              ≡ some u)
      unfolding select_labelled
      Available-Serves index label t a =
          elim (Option-cases (HashMap.get label self.label_to_tunnels_map)) [
            | inl n ↦
                absurd
                  (subst (Elem t) (ap (λ o. Option.get_or o []) n) (Available-offered label t a))
            | inr (tunnels, n) ↦
                let m =
                  subst (Elem t) (ap (λ o. Option.get_or o []) n) (Available-offered label t a) in
                elim (Option-cases (select_from_tunnels is_active tunnels index)) [
                  | inr (u, e) ↦ (u, rw (n, select_labelled) e)
                  | inl e ↦
                      absurd (cc (select_from_tunnels-none is_active tunnels index e t m, a.1))
                ]
          ]

    -- After any sequence of tunnels that came up, tunnels that closed and connections, what is selected
    -- for a connection serves one of its labels, with that label's tag: the direct tunnel for `Direct` or
    -- `Any`; else a tunnel that is up and active and offers the label (`Proxy` for `Any`), and no tunnel
    -- available for the label goes before it. `order_perm` says that the map of tunnels is iterated in
    -- some order of its entries.
    pub select_tunnel-Fits :
        (es : List ManagerEvent) (is_active : InTunnel → Bool) (groups : List Labels)
        (c : AnyInTunnel) (tag : Option Text)
        → (select_tunnel is_active (manage_all out_text order new_manager es) groups).1
          ≡ some (c, tag)
        → (label : Label) × ((labels : Labels) × Elem labels groups × Elem (label, tag) labels)
          × Fits out_text (manage_all out_text order new_manager es) is_active label c
    unfolding select_tunnel
    select_tunnel-Fits es is_active groups c tag h =
        let self = manage_all out_text order new_manager es in
        let (label, m, v) =
          labels_groups_loop-Chosen is_active self.label_to_tunnels_map self.select_index groups
            (c, tag) h in
        (
          label,
          m,
          Serves-Fits self (run-IsConsistent out_text order order_perm es) is_active
              self.select_index label c v,
        )

    -- After any sequence of tunnels that came up, tunnels that closed and connections, a connection is
    -- given nothing only if it has no label `Direct` or `Any` and no tunnel is available for any of its
    -- labels. `order_perm` is as above.
    pub select_tunnel-none :
        (es : List ManagerEvent) (is_active : InTunnel → Bool) (groups : List Labels)
        → (select_tunnel is_active (manage_all out_text order new_manager es) groups).1 ≡ none
        → (labels : Labels) (label : Label) (tag : Option Text) → Elem labels groups
        → Elem (label, tag) labels
        → (label ≢ built_in direct)
          × (label ≢ built_in any)
          × ((t : InTunnel)
              → ¬ Available out_text (manage_all out_text order new_manager es) is_active label t)
    unfolding select_tunnel
    select_tunnel-none es is_active groups h labels label tag m k = unserved label k
      where
        self : TunnelManager
        self = manage_all out_text order new_manager es

        bad :
            (label : Label)
            → Elem (label, tag) labels
            → (c : AnyInTunnel)
            → ¬ Serves is_active self.label_to_tunnels_map self.select_index label c
        bad label k c =
            labels_groups_loop-none is_active self.label_to_tunnels_map self.select_index groups h
              labels label tag c m k

        given :
            (label : Label) (t : InTunnel)
            → Available out_text self is_active label t
            → (u : InTunnel) × (select_labelled is_active self.label_to_tunnels_map
                  self.select_index label
                ≡ some u)
        given label t a =
            Available-Serves self (run-IsConsistent out_text order order_perm es) is_active
              self.select_index label t a

        unserved :
            (label : Label)
            → Elem (label, tag) labels
            → (label ≢ built_in direct)
              × (label ≢ built_in any)
              × ((t : InTunnel)
                  → ¬ Available out_text
                      (manage_all out_text order new_manager es)
                      is_active
                      label
                      t)
        unserved (built_in direct) k = absurd (bad (built_in direct) k direct_tunnel refl)
        unserved (built_in any) k = absurd (bad (built_in any) k direct_tunnel (inl refl))
        unserved (built_in proxy) k = (
          cc,
          cc,
          λ t a.
              let (u, e) = given (built_in proxy) t a in
              bad (built_in proxy) k (through u) (u, refl, e),
        )
        unserved (custom name) k = (
          cc,
          cc,
          λ t a.
              let (u, e) = given (custom name) t a in bad (custom name) k (through u) (u, refl, e),
        )
