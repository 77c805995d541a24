-- ===== src/Manager/Choice.antt =====
-- The choice for the labels that a connection matched: the loops of `select_tunnel`
-- (src/lib/in/tunnel_manager.rs).
pub mod Unserved
use mathlib.Core.Option
use plug2proxy.Prelude.{
  ℕ, ◌≡◌, ◌≢◌, refl, sym, ap, ◌∙◌, subst, Option-cases, Option, none, some, List, [], ◌∷◌, ◌⊎◌, inl,
  inr, some-eq-some, Elem, Bool,
}
use plug2proxy.Net.{Text}
use plug2proxy.Route.Label.{Label, built_in, custom, direct, proxy, any}
use plug2proxy.Route.Router.{Labels}
use plug2proxy.Manager.{
  InTunnel, AnyInTunnel, through, direct_tunnel, LabelToTunnelsMap, LabelsEnd, returned, passed,
  select_labelled, labels_loop, proxy_choice, labels_groups_loop,
}

module _ (is_active : InTunnel → Bool) (label_map : LabelToTunnelsMap) (index : ℕ) where
  -- The tunnel that the label selects.
  abbrev pub ServesThrough : Label → AnyInTunnel → Type 0
  ServesThrough label c =
      (t : InTunnel) × (c ≡ through t) × (select_labelled is_active label_map index label ≡ some t)

  -- What a label may be served by: `Direct` by the direct tunnel, `Proxy` by a tunnel, `Any` by both,
  -- and another label by a tunnel that offers it.
  abbrev pub Serves : Label → AnyInTunnel → Type 0
  Serves (built_in direct) c = c ≡ direct_tunnel
  Serves (built_in proxy) c = ServesThrough (built_in proxy) c
  Serves (built_in any) c = (c ≡ direct_tunnel) ⊎ ServesThrough (built_in proxy) c
  Serves (custom name) c = ServesThrough (custom name) c

  module _ (R : Label × Option Text → Type 0) where
    abbrev Choice : AnyInTunnel × Option Text → Type 0
    Choice (c, tag) = (label : Label) × R (label, tag) × Serves label c

    abbrev ProxyTag : Option (Option Text) → Type 0
    ProxyTag none = Unit
    ProxyTag (some tag) = R (built_in proxy, tag) ⊎ R (built_in any, tag)

    abbrev DirectTag : Option (Option Text) → Type 0
    DirectTag none = Unit
    DirectTag (some tag) = R (built_in any, tag)

    abbrev LabelsEndOk : LabelsEnd → Type 0
    LabelsEndOk (returned choice) = Choice choice
    LabelsEndOk (passed p d) = ProxyTag p × DirectTag d

    ProxyTag-get_or :
        (p : Option (Option Text)) (tag : Option Text)
        → ProxyTag p
        → R (built_in proxy, tag) ⊎ R (built_in any, tag)
        → ProxyTag (some (Option.get_or p tag))
    ProxyTag-get_or none tag h k = k
    ProxyTag-get_or (some tag') tag h k = h

    labels_loop-Ok :
        (p d : Option (Option Text)) (labels : Labels)
        → ((e : Label × Option Text) → Elem e labels → R e)
        → ProxyTag p
        → DirectTag d
        → LabelsEndOk (labels_loop is_active label_map index p d labels)
    unfolding labels_loop
    labels_loop-Ok p d [] r hp hd = (hp, hd)
    labels_loop-Ok p d ((built_in direct, tag) ∷ labels) r hp hd =
        (built_in direct, r (built_in direct, tag) (inl refl), refl)
    labels_loop-Ok p d ((built_in proxy, tag) ∷ labels) r hp hd =
        labels_loop-Ok (some (Option.get_or p tag)) d labels (λ e m. r e (inr m))
          (ProxyTag-get_or p tag hp (inl (r (built_in proxy, tag) (inl refl)))) hd
    labels_loop-Ok p d ((built_in any, tag) ∷ labels) r hp hd =
        labels_loop-Ok (some (Option.get_or p tag)) (some tag) labels (λ e m. r e (inr m))
          (ProxyTag-get_or p tag hp (inr (r (built_in any, tag) (inl refl))))
          (r (built_in any, tag) (inl refl))
    labels_loop-Ok p d ((custom name, tag) ∷ labels) r hp hd =
        elim (Option-cases (select_labelled is_active label_map index (custom name))) [
          | inl e ↦ rw (e, labels_loop) (labels_loop-Ok p d labels (λ e m. r e (inr m)) hp hd)
          | inr (t, e) ↦
              rw (e, labels_loop) (custom name, r (custom name, tag) (inl refl), (t, refl, e))
        ]

    proxy_choice-Choice :
        (p : Option (Option Text)) (choice : AnyInTunnel × Option Text)
        → ProxyTag p
        → proxy_choice is_active label_map index p ≡ some choice
        → Choice choice
    unfolding proxy_choice
    proxy_choice-Choice none choice h e = cc
    proxy_choice-Choice (some tag) choice h e =
        elim (Option-cases (select_labelled is_active label_map index (built_in proxy))) [
          | inl q ↦ cc (rw q at e)
          | inr (t, q) ↦ subst Choice (some-eq-some (rw q at e)) (elim h [
            | inl r ↦ (built_in proxy, r, (t, refl, q))
            | inr r ↦ (built_in any, r, inr (t, refl, q))
          ])
        ]

    labels_groups_loop-Choice :
        (d : Option (Option Text)) (groups : List Labels) (choice : AnyInTunnel × Option Text)
        → ((labels : Labels) → Elem labels groups → (e : Label × Option Text) → Elem e labels → R e)
        → DirectTag d
        → labels_groups_loop is_active label_map index d groups ≡ some choice
        → Choice choice
    unfolding labels_groups_loop
    labels_groups_loop-Choice none [] choice r hd e = cc
    labels_groups_loop-Choice (some tag) [] choice r hd e =
        subst Choice (some-eq-some e) (built_in any, hd, inl refl)
    labels_groups_loop-Choice d (labels ∷ groups) choice r hd e =
        go (labels_loop is_active label_map index none d labels)
          (labels_loop-Ok none d labels (r labels (inl refl)) tt hd) e
          (λ d' hd' h.
            labels_groups_loop-Choice d' groups choice (λ labels m. r labels (inr m)) hd' h)
      where
        go :
            (end : LabelsEnd)
            → LabelsEndOk end
            → (elim end [
              | returned choice ↦ some choice
              | passed p d' ↦ elim (proxy_choice is_active label_map index p) [
                | some choice ↦ some choice
                | none ↦ labels_groups_loop is_active label_map index d' groups
              ]
            ])
              ≡ some choice
            → ((d : Option (Option Text))
                → DirectTag d
                → labels_groups_loop is_active label_map index d groups ≡ some choice
                → Choice choice)
            → Choice choice
        go (returned c) ok h rest = subst Choice (some-eq-some h) ok
        go (passed p d') (hp, hd') h rest =
            elim (Option-cases (proxy_choice is_active label_map index p)) [
              | inl q ↦ rest d' hd' (rw q at h)
              | inr (c, q) ↦ proxy_choice-Choice p choice hp (q ∙ rw q at h)
            ]

  -- A choice serves a label of a group, and has that label's tag.
  abbrev pub Chosen : List Labels → AnyInTunnel × Option Text → Type 0
  Chosen groups (c, tag) =
      (label : Label) × ((labels : Labels) × Elem labels groups × Elem (label, tag) labels)
      × Serves label c

  pub labels_groups_loop-Chosen :
      (groups : List Labels) (choice : AnyInTunnel × Option Text)
      → labels_groups_loop is_active label_map index none groups ≡ some choice
      → Chosen groups choice
  labels_groups_loop-Chosen groups choice h =
      labels_groups_loop-Choice (λ e. (labels : Labels) × Elem labels groups × Elem e labels) none
        groups choice (λ labels m e k. (labels, m, k)) tt h
