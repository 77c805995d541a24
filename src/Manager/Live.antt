-- ===== src/Manager/Live.antt =====
-- Tunnels come up and close, and connections are made (src/lib/in/tunnel_manager.rs): the map of labels
-- stays that of the tunnels.
use mathlib.Core.List.{Permᴰ}
use plug2proxy.Prelude.{
  ℕ, perm_nil, ◌≡◌, refl, sym, ap, ◌∙◌, ◌==◌, ==_eq, if◌then◌else◌, Bool, Bool-cases, nat_eq, none,
  some, List, [], ◌∷◌, inl, inr, some-eq-some,
}
use plug2proxy.Net.{Text}
use plug2proxy.HashMap
use plug2proxy.HashMap.{Elem-get, get-insert, get-remove}
use plug2proxy.HashMap.Distinct.{Distinct, insert-Distinct, remove-Distinct}
use plug2proxy.Route.Label.{label_eq}
use plug2proxy.Route.Router.{Labels}
use plug2proxy.Manager.{
  InTunnel, TunnelManager, new_manager, select_tunnel, update_label_to_tunnels_map, push_tunnels,
  tunnel_accepted, tunnel_closed,
}

pub data ManagerEvent : Type 0 where
  accepted : InTunnel → ManagerEvent
  closed : ℕ → ManagerEvent
  -- A connection for which a tunnel is selected.
  connected : (InTunnel → Bool) → List Labels → ManagerEvent

module _ (out_text : ℕ → Text) (order : List (ℕ × InTunnel) → List (ℕ × InTunnel)) where
  unfoldable pub manage : TunnelManager → ManagerEvent → TunnelManager
  manage self (accepted tunnel) = tunnel_accepted out_text order self tunnel
  manage self (closed tunnel_id) = tunnel_closed out_text order self tunnel_id
  manage self (connected is_active labels_groups) = (select_tunnel is_active self labels_groups).0

  unfoldable pub manage_all : TunnelManager → List ManagerEvent → TunnelManager
  manage_all self [] = self
  manage_all self (e ∷ es) = manage_all (manage self e) es

  -- The map of labels is that of the tunnels that are up, each under its own id.
  pub record IsConsistent (self : TunnelManager) : Type 0 where
    pub distinct : Distinct self.tunnel_map
    pub keyed : (id : ℕ) (t : InTunnel) → HashMap.get id self.tunnel_map ≡ some t → t.id ≡ id
    pub current :
        self.label_to_tunnels_map ≡ update_label_to_tunnels_map out_text order self.tunnel_map

  accepted-IsConsistent :
      (self : TunnelManager) (tunnel : InTunnel)
      → IsConsistent self
      → IsConsistent (tunnel_accepted out_text order self tunnel)
  unfolding tunnel_accepted
  accepted-IsConsistent self tunnel c = record {
    distinct = insert-Distinct tunnel.id tunnel self.tunnel_map c.distinct;
    keyed = λ id t h. keyed id t (sym (get-insert tunnel.id id tunnel self.tunnel_map) ∙ h);
    current = refl;
  }
    where
      keyed :
          (id : ℕ) (t : InTunnel)
          → (if tunnel.id == id then some tunnel else HashMap.get id self.tunnel_map) ≡ some t
          → t.id ≡ id
      keyed id t h = elim (Bool-cases (tunnel.id == id)) [
        | inl e ↦
            ap (λ (t : InTunnel). t.id) (sym (some-eq-some (rw e at h))) ∙ ==_eq tunnel.id id e
        | inr e ↦ c.keyed id t (rw e at h)
      ]

  closed-IsConsistent :
      (self : TunnelManager) (tunnel_id : ℕ)
      → IsConsistent self
      → IsConsistent (tunnel_closed out_text order self tunnel_id)
  unfolding tunnel_closed
  closed-IsConsistent self tunnel_id c = record {
    distinct = remove-Distinct tunnel_id self.tunnel_map c.distinct;
    keyed = λ id t h. keyed id t (sym (get-remove tunnel_id id self.tunnel_map) ∙ h);
    current = refl;
  }
    where
      keyed :
          (id : ℕ) (t : InTunnel)
          → (if tunnel_id == id then none else HashMap.get id self.tunnel_map) ≡ some t
          → t.id ≡ id
      keyed id t h = elim (Bool-cases (tunnel_id == id)) [
        | inl e ↦ cc (rw e at h)
        | inr e ↦ c.keyed id t (rw e at h)
      ]

  manage-IsConsistent :
      (self : TunnelManager) (e : ManagerEvent) → IsConsistent self → IsConsistent (manage self e)
  unfolding manage select_tunnel
  manage-IsConsistent self (accepted tunnel) c = accepted-IsConsistent self tunnel c
  manage-IsConsistent self (closed tunnel_id) c = closed-IsConsistent self tunnel_id c
  manage-IsConsistent self (connected is_active groups) c = record {
    distinct = c.distinct;
    keyed = c.keyed;
    current = c.current;
  }

  manage_all-IsConsistent :
      (self : TunnelManager) (es : List ManagerEvent)
      → IsConsistent self
      → IsConsistent (manage_all self es)
  unfolding manage_all
  manage_all-IsConsistent self [] c = c
  manage_all-IsConsistent self (e ∷ es) c =
      manage_all-IsConsistent (manage self e) es (manage-IsConsistent self e c)

  module _ (order_perm : (m : List (ℕ × InTunnel)) → Permᴰ (order m) m) where
    new_manager-IsConsistent : IsConsistent new_manager
    unfolding update_label_to_tunnels_map push_tunnels HashMap.get
    new_manager-IsConsistent = record {
      distinct = tt;
      keyed = λ id t h. cc;
      current = rw (perm_nil (order []) (order_perm []), push_tunnels) refl;
    }

    pub run-IsConsistent : (es : List ManagerEvent) → IsConsistent (manage_all new_manager es)
    run-IsConsistent es = manage_all-IsConsistent new_manager es new_manager-IsConsistent
