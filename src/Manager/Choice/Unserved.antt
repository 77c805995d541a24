-- ===== src/Manager/Choice/Unserved.antt =====
-- When nothing is chosen for the labels that a connection matched: the loops of `select_tunnel`
-- (src/lib/in/tunnel_manager.rs).
use mathlib.Core.Option
use plug2proxy.Prelude.{
  ℕ, ◌≡◌, ◌≢◌, refl, sym, ap, subst, Option-cases, Option, none, some, List, [], ◌∷◌, inl, inr,
  Elem, Bool,
}
use plug2proxy.Net.{Text}
use plug2proxy.Route.Label.{Label, built_in, custom, direct, proxy, any}
use plug2proxy.Route.Router.{Labels}
use plug2proxy.Manager.{
  InTunnel, AnyInTunnel, LabelToTunnelsMap, LabelsEnd, returned, passed, select_labelled,
  labels_loop, proxy_choice, labels_groups_loop,
}
use plug2proxy.Manager.Choice.{Serves}

module _ (is_active : InTunnel → Bool) (label_map : LabelToTunnelsMap) (index : ℕ) where
  -- What is known of a label of a group that passed with the two tags.
  abbrev Skipped : Option (Option Text) → Option (Option Text) → Label → Type 0
  Skipped p d (built_in direct) = ⊥
  Skipped p d (built_in proxy) = p ≢ none
  Skipped p d (built_in any) = (p ≢ none) × (d ≢ none)
  Skipped p d (custom name) = select_labelled is_active label_map index (custom name) ≡ none

  abbrev AllSkipped : Option (Option Text) → Option (Option Text) → Labels → LabelsEnd → Type 0
  AllSkipped p d labels (returned choice) = Unit
  AllSkipped p d labels (passed p' d') =
      ((label : Label) (tag : Option Text) → Elem (label, tag) labels → Skipped p' d' label)
      × (p ≢ none → p' ≢ none)
      × (d ≢ none → d' ≢ none)

  AllSkipped-cons :
      (p d p' d' : Option (Option Text)) (label : Label) (tag : Option Text) (labels : Labels)
      (end : LabelsEnd)
      → AllSkipped p' d' labels end
      → (p ≢ none → p' ≢ none)
      → (d ≢ none → d' ≢ none)
      → ((q e : Option (Option Text))
          → (p' ≢ none → q ≢ none)
          → (d' ≢ none → e ≢ none)
          → Skipped q e label)
      → AllSkipped p d ((label, tag) ∷ labels) end
  AllSkipped-cons p d p' d' label tag labels (returned choice) s hp hd head = tt
  AllSkipped-cons p d p' d' label tag labels (passed q e) (s, sp, sd) hp hd head =
      (go, λ h. sp (hp h), λ h. sd (hd h))
    where
      go : (j : Label) (tag' : Option Text) → Elem (j, tag') ((label, tag) ∷ labels) → Skipped q e j
      go j tag' (inl k) =
          subst (Skipped q e) (ap (λ (z : Label × Option Text). z.0) k) (head q e sp sd)
      go j tag' (inr m) = s j tag' m

  some_ne : (tag : Option Text) → some tag ≢ none
  some_ne tag = cc

  labels_loop-AllSkipped :
      (p d : Option (Option Text)) (labels : Labels)
      → AllSkipped p d labels (labels_loop is_active label_map index p d labels)
  unfolding labels_loop
  labels_loop-AllSkipped p d [] = (λ label tag m. absurd m, λ h. h, λ h. h)
  labels_loop-AllSkipped p d ((built_in direct, tag) ∷ labels) = tt
  labels_loop-AllSkipped p d ((built_in proxy, tag) ∷ labels) =
      let p' = some (Option.get_or p tag) in
      AllSkipped-cons p d p' d (built_in proxy) tag labels _ (labels_loop-AllSkipped p' d labels)
        (λ h. some_ne (Option.get_or p tag)) (λ h. h)
        (λ q e hq he. hq (some_ne (Option.get_or p tag)))
  labels_loop-AllSkipped p d ((built_in any, tag) ∷ labels) =
      let p' = some (Option.get_or p tag) in
      AllSkipped-cons p d p' (some tag) (built_in any) tag labels _
        (labels_loop-AllSkipped p' (some tag) labels) (λ h. some_ne (Option.get_or p tag))
        (λ h. some_ne tag) (λ q e hq he. (hq (some_ne (Option.get_or p tag)), he (some_ne tag)))
  labels_loop-AllSkipped p d ((custom name, tag) ∷ labels) =
      elim (Option-cases (select_labelled is_active label_map index (custom name))) [
        | inl e ↦
            rw (e, labels_loop)
              (AllSkipped-cons p d p d (custom name) tag labels _
                (labels_loop-AllSkipped p d labels) (λ h. h) (λ h. h) (λ q e' hq he. e))
        | inr (t, e) ↦ rw (e, labels_loop) tt
      ]

  -- A label that was skipped serves nothing, where no proxy tunnel was found for the group's tag and
  -- there is no direct tag in the end.
  Skipped-unserved :
      (p d : Option (Option Text)) (label : Label) (c : AnyInTunnel)
      → Skipped p d label
      → (p ≢ none → select_labelled is_active label_map index (built_in proxy) ≡ none)
      → d ≡ none
      → ¬ Serves is_active label_map index label c
  Skipped-unserved p d (built_in direct) c s hp hd v = s
  Skipped-unserved p d (built_in proxy) c s hp hd (t, e, h) = cc (hp s, h)
  Skipped-unserved p d (built_in any) c s hp hd v = s.1 hd
  Skipped-unserved p d (custom name) c s hp hd (t, e, h) = cc (s, h)

  proxy_choice-none :
      (p : Option (Option Text))
      → proxy_choice is_active label_map index p ≡ none
      → p ≢ none
      → select_labelled is_active label_map index (built_in proxy) ≡ none
  unfolding proxy_choice
  proxy_choice-none none h n = absurd (n refl)
  proxy_choice-none (some tag) h n =
      elim (Option-cases (select_labelled is_active label_map index (built_in proxy))) [
        | inl q ↦ q
        | inr (t, q) ↦ cc (rw q at h)
      ]

  abbrev Unserved : List Labels → Type 0
  Unserved groups =
      (labels : Labels) (label : Label) (tag : Option Text) (c : AnyInTunnel)
      → Elem labels groups
      → Elem (label, tag) labels
      → ¬ Serves is_active label_map index label c

  labels_groups_loop-Unserved :
      (d : Option (Option Text)) (groups : List Labels)
      → labels_groups_loop is_active label_map index d groups ≡ none
      → (d ≡ none) × Unserved groups
  unfolding labels_groups_loop
  labels_groups_loop-Unserved none [] h = (refl, λ labels label tag c m. absurd m)
  labels_groups_loop-Unserved (some tag) [] h = cc
  labels_groups_loop-Unserved d (labels ∷ groups) h =
      go (labels_loop is_active label_map index none d labels)
        (labels_loop-AllSkipped none d labels) h (λ d'. labels_groups_loop-Unserved d' groups)
    where
      go :
          (end : LabelsEnd)
          → AllSkipped none d labels end
          → (elim end [
            | returned choice ↦ some choice
            | passed p d' ↦ elim (proxy_choice is_active label_map index p) [
              | some choice ↦ some choice
              | none ↦ labels_groups_loop is_active label_map index d' groups
            ]
          ])
            ≡ none
          → ((d' : Option (Option Text))
              → labels_groups_loop is_active label_map index d' groups ≡ none
              → (d' ≡ none) × Unserved groups)
          → (d ≡ none) × Unserved (labels ∷ groups)
      go (returned c) s k rest = cc
      go (passed p d') (s, sp, sd) k rest =
          elim (Option-cases (proxy_choice is_active label_map index p)) [
            | inr (c, q) ↦ cc (rw q at k)
            | inl q ↦
                let (dn, others) = rest d' (rw q at k) in
                (
                  elim (Option-cases d) [
                    | inl e ↦ e
                    | inr (tag, e) ↦ absurd (sd (subst (λ x. x ≢ none) (sym e) (some_ne tag)) dn)
                  ],
                  λ ls label tag c m j. elim m [
                    | inl e ↦
                        Skipped-unserved p d' label c
                          (s label tag (subst (λ (z : Labels). Elem (label, tag) z) (sym e) j))
                          (proxy_choice-none p q) dn
                    | inr m' ↦ others ls label tag c m' j
                  ],
                )
          ]

  -- Where nothing is chosen, no label of any group could be served.
  pub labels_groups_loop-none :
      (groups : List Labels)
      → labels_groups_loop is_active label_map index none groups ≡ none
      → (labels : Labels) (label : Label) (tag : Option Text) (c : AnyInTunnel) → Elem labels groups
      → Elem (label, tag) labels
      → ¬ Serves is_active label_map index label c
  labels_groups_loop-none groups h = (labels_groups_loop-Unserved none groups h).1
