-- ===== src/Manager/Offers.antt =====
-- What `update_label_to_tunnels_map` (src/lib/in/tunnel_manager.rs) leaves under each label.
use mathlib.Core.Option
use mathlib.Core.List.{Permᴰ}
use mathlib.Core.List.Permᴰ
use plug2proxy.Prelude.{
  ℕ, ◌≡◌, ◌↔◌, refl, sym, ap, subst, Bool-cases, Option-cases, ◌==◌, ==_eq, ==_refl, List, [], ◌∷◌,
  ◌++◌, map, ◌⊎◌, inl, inr, arith, if◌then◌else◌, SortedBy, sort_by_key, sort_by_key-SortedBy,
  sort_by_key-perm, Elem, Elem-append, Elem-append_left, Elem-append_right, Elem-perm,
}
use plug2proxy.Net.{Text}
use plug2proxy.HashMap
use plug2proxy.HashMap.{get-insert}
use plug2proxy.Route.Label.{Label, label_eq}
use plug2proxy.Manager.{
  InTunnel, LabelToTunnelsMap, push_tunnel, push_under, push_tunnels, offered_labels,
  update_label_to_tunnels_map,
}

-- The tunnels under a label; none where the label is not there.
abbrev pub tunnels_at : Label → LabelToTunnelsMap → List InTunnel
tunnels_at label label_map = Option.get_or (HashMap.get label label_map) []

tunnels_at-push_tunnel :
    (label j : Label) (tunnel : InTunnel) (m : LabelToTunnelsMap)
    → tunnels_at j (push_tunnel label tunnel m)
      ≡ (if label == j then tunnels_at label m ++ tunnel ∷ [] else tunnels_at j m)
unfolding push_tunnel
tunnels_at-push_tunnel label j tunnel m =
    ground (arith, get-insert label j (tunnels_at label m ++ tunnel ∷ []) m)

-- Under a label after a push is the tunnel, where it is the label's, and what was there.
push_tunnel_iff :
    (label j : Label) (tunnel t : InTunnel) (m : LabelToTunnelsMap)
    → Elem t (tunnels_at j (push_tunnel label tunnel m))
      ↔ (Elem t (tunnels_at j m) ⊎ ((label ≡ j) × (tunnel ≡ t)))
push_tunnel_iff label j tunnel t m = elim (Bool-cases (label == j)) [
  | inr e ↦
      rw (tunnels_at-push_tunnel label j tunnel m, e)
        (inl, λ c. elim c [ inl k ↦ k | inr (p, q) ↦ absurd (ground (arith, p, ==_refl j)) ])
  | inl e ↦
      let p = ==_eq label j e in
      rw (tunnels_at-push_tunnel label j tunnel m, e, p)
        (
          λ k. elim (Elem-append (tunnels_at j m) (tunnel ∷ []) t k) [
            | inl l ↦ inl l
            | inr (inl q) ↦ inr (refl, q)
            | inr (inr r) ↦ absurd r
          ],
          λ c. elim c [
            | inl l ↦ Elem-append_left (tunnels_at j m) (tunnel ∷ []) t l
            | inr (p', q) ↦ Elem-append_right (tunnels_at j m) (tunnel ∷ []) t (inl q)
          ],
        )
]

push_under_iff :
    (labels : List Label) (j : Label) (tunnel t : InTunnel) (m : LabelToTunnelsMap)
    → Elem t (tunnels_at j (push_under labels tunnel m))
      ↔ (Elem t (tunnels_at j m) ⊎ (Elem j labels × (tunnel ≡ t)))
unfolding push_under
push_under_iff [] j tunnel t m = (inl, λ c. elim c [ inl k ↦ k | inr (p, q) ↦ absurd p ])
push_under_iff (label ∷ labels) j tunnel t m =
    let (f, g) = push_under_iff labels j tunnel t (push_tunnel label tunnel m) in
    let (f', g') = push_tunnel_iff label j tunnel t m in
    (
      λ k. elim (f k) [
        | inl l ↦ elim (f' l) [ inl l' ↦ inl l' | inr (p, q) ↦ inr (inl p, q) ]
        | inr (p, q) ↦ inr (inr p, q)
      ],
      λ c. elim c [
        | inl l ↦ g (inl (g' (inl l)))
        | inr (inl p, q) ↦ g (inl (g' (inr (p, q))))
        | inr (inr p, q) ↦ g (inr (p, q))
      ],
    )

map_values :
    (f : List InTunnel → List InTunnel) (j : Label) (m : LabelToTunnelsMap)
    → HashMap.get j (map (λ e. (e.0, f e.1)) m) ≡ Option.map f (HashMap.get j m)
unfolding HashMap.get
map_values f j [] = refl
map_values f j ((k, ts) ∷ m) = ground (arith, map_values f j m)

module _ (out_text : ℕ → Text) where
  push_tunnels_iff :
      (entries : List (ℕ × InTunnel)) (j : Label) (t : InTunnel) (m : LabelToTunnelsMap)
      → Elem t (tunnels_at j (push_tunnels out_text entries m)) ↔ (
          Elem t (tunnels_at j m)
          ⊎ (((id : ℕ) × Elem (id, t) entries) × Elem j (offered_labels out_text t)))
  unfolding push_tunnels
  push_tunnels_iff [] j t m = (inl, λ c. elim c [ inl k ↦ k | inr ((id, p), q) ↦ absurd p ])
  push_tunnels_iff ((id, tunnel) ∷ entries) j t m =
      let (f, g) =
        push_tunnels_iff entries j t (push_under (offered_labels out_text tunnel) tunnel m) in
      let (f', g') = push_under_iff (offered_labels out_text tunnel) j tunnel t m in
      (
        λ k. elim (f k) [
          | inl l ↦ elim (f' l) [
            | inl l' ↦ inl l'
            | inr (p, q) ↦ inr (
              (id, inl (ap (λ u. (id, u)) q)),
              subst (λ u. Elem j (offered_labels out_text u)) q p,
            )
          ]
          | inr ((id', p), q) ↦ inr ((id', inr p), q)
        ],
        λ c. elim c [
          | inl l ↦ g (inl (g' (inl l)))
          | inr ((id', inl p), q) ↦
              let e = ap (λ (z : ℕ × InTunnel). z.1) p in
              g (inl (g' (inr (subst (λ u. Elem j (offered_labels out_text u)) (sym e) q, e))))
          | inr ((id', inr p), q) ↦ g (inr ((id', p), q))
        ],
      )

module _ (out_text : ℕ → Text) (order : List (ℕ × InTunnel) → List (ℕ × InTunnel)) where
  tunnels_at-update :
      (tunnel_map : List (ℕ × InTunnel)) (j : Label)
      → tunnels_at j (update_label_to_tunnels_map out_text order tunnel_map)
        ≡ sort_by_key
            (λ (t : InTunnel). t.priority)
            (tunnels_at j (push_tunnels out_text (order tunnel_map) []))
  unfolding update_label_to_tunnels_map sort_by_key
  tunnels_at-update tunnel_map j =
      let m = push_tunnels out_text (order tunnel_map) [] in
      elim (Option-cases (HashMap.get j m)) [
        | inl e ↦ rw (map_values (sort_by_key (λ (t : InTunnel). t.priority)) j m, e) refl
        | inr (ts, e) ↦ rw (map_values (sort_by_key (λ (t : InTunnel). t.priority)) j m, e) refl
      ]

  -- Under each label the map holds exactly the tunnels of the map of tunnels that offer it: that have
  -- the label, any for `Proxy`, and those of an OUT for the text of its id; sorted by priority.
  -- `order` may be any order of the entries.
  pub update_label_to_tunnels_map-offers :
      ((m : List (ℕ × InTunnel)) → Permᴰ (order m) m)
      → (tunnel_map : List (ℕ × InTunnel)) (label : Label)
      → SortedBy
          (λ (t : InTunnel). t.priority)
          (tunnels_at label (update_label_to_tunnels_map out_text order tunnel_map))
        × ((t : InTunnel)
            → Elem t (tunnels_at label (update_label_to_tunnels_map out_text order tunnel_map))
              ↔ (((id : ℕ) × Elem (id, t) tunnel_map) × Elem label (offered_labels out_text t)))
  unfolding HashMap.get
  update_label_to_tunnels_map-offers order_perm tunnel_map label =
      let before = tunnels_at label (push_tunnels out_text (order tunnel_map) []) in
      let perm = sort_by_key-perm (λ (t : InTunnel). t.priority) before in
      rw (tunnels_at-update tunnel_map label) (
        sort_by_key-SortedBy (λ (t : InTunnel). t.priority) before,
        λ t.
            let (f, g) = push_tunnels_iff out_text (order tunnel_map) label t [] in
            (
              λ k. elim (f (Elem-perm t perm k)) [
                | inl z ↦ absurd (nothing t z)
                | inr ((id, p), q) ↦ ((id, Elem-perm (id, t) (order_perm tunnel_map) p), q)
              ],
              λ c.
                  let ((id, p), q) = c in
                  Elem-perm t (Permᴰ.symm perm)
                    (g (inr ((id, Elem-perm (id, t) (Permᴰ.symm (order_perm tunnel_map)) p), q))),
            ),
      )
    where
      nothing : (t : InTunnel) → Elem t (tunnels_at label []) → ⊥
      nothing t z = z
