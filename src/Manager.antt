-- ===== src/Manager.antt =====
-- src/lib/in/tunnel_manager.rs: the tunnels that are up, and the choice of one for a connection. The
-- locks of both maps are held through a whole update and the choice holds the lock of its map, so each
-- is a function of the state.
pub mod Select
pub mod Choice
pub mod Offers
pub mod Live
pub mod Available
mod Examples
use plug2proxy.Prelude.{
  ℕ, ℤ, ◌+◌, ◌%◌, ◌^◌, beq_ℤ, nat_eq, Bool, Option, none, some, List, [], ◌∷◌, ◌++◌, map,
  if◌then◌else◌, filter, flat_map, length, get_elem?, sort_by_key,
}
use mathlib.Core.Option
use plug2proxy.Net.{Text}
use plug2proxy.HashMap
use plug2proxy.Route.Label.{Label, built_in, custom, direct, proxy, any, label_eq}
use plug2proxy.Route.Router.{Labels}

-- What the manager asks of an `InTunnel`; whether it is active changes by itself, and is asked anew for
-- each choice.
pub record InTunnel : Type 0 where
  pub id : ℕ
  pub out_id : ℕ
  pub labels : List Label
  pub priority : ℤ

abbrev pub LabelToTunnelsMap : Type 0
LabelToTunnelsMap = List (Label × List InTunnel)

pub record TunnelManager : Type 0 where
  pub tunnel_map : List (ℕ × InTunnel)
  pub label_to_tunnels_map : LabelToTunnelsMap
  pub select_index : ℕ

abbrev pub new_manager : TunnelManager
new_manager = record { tunnel_map = []; label_to_tunnels_map = []; select_index = 0 }

-- `AnyInTunnelLikeArc`.
pub data AnyInTunnel : Type 0 where
  through : InTunnel → AnyInTunnel
  direct_tunnel : AnyInTunnel

unfoldable pub take_while {ℓ} : {A : Type ℓ} → (A → Bool) → List A → List A
take_while p [] = []
take_while p (x ∷ xs) = let rest = take_while p xs in if p x then x ∷ rest else []

-- The tunnels that the index goes round.
unfoldable pub tunnels_with_top_priority : List InTunnel → List InTunnel
tunnels_with_top_priority [] = []
tunnels_with_top_priority (first ∷ tunnels) =
    take_while (λ (t : InTunnel). beq_ℤ t.priority first.priority) (first ∷ tunnels)

module _ (is_active : InTunnel → Bool) where
  unfoldable pub select_from_tunnels : List InTunnel → ℕ → Option InTunnel
  select_from_tunnels tunnels index =
      let top = tunnels_with_top_priority (filter is_active tunnels) in
      get_elem? top (index % length top)

-- How the loop over the labels of a group ends: by `return`, or with the two tags.
pub data LabelsEnd : Type 0 where
  returned : AnyInTunnel × Option Text → LabelsEnd
  passed : (proxy_tag direct_tag : Option (Option Text)) → LabelsEnd

module _ (is_active : InTunnel → Bool) (label_map : LabelToTunnelsMap) (index : ℕ) where
  -- `get(label)`, then `select_from_tunnels`.
  unfoldable pub select_labelled : Label → Option InTunnel
  select_labelled label = elim (HashMap.get label label_map) [
    | none ↦ none
    | some tunnels ↦ select_from_tunnels is_active tunnels index
  ]

  unfoldable pub labels_loop : Option (Option Text) → Option (Option Text) → Labels → LabelsEnd
  labels_loop proxy_tag direct_tag [] = passed proxy_tag direct_tag
  labels_loop proxy_tag direct_tag ((built_in direct, tag) ∷ labels) = returned (direct_tunnel, tag)
  labels_loop proxy_tag direct_tag ((built_in proxy, tag) ∷ labels) =
      labels_loop (some (Option.get_or proxy_tag tag)) direct_tag labels
  labels_loop proxy_tag direct_tag ((built_in any, tag) ∷ labels) =
      labels_loop (some (Option.get_or proxy_tag tag)) (some tag) labels
  labels_loop proxy_tag direct_tag ((custom name, tag) ∷ labels) =
      elim (select_labelled (custom name)) [
        | none ↦ labels_loop proxy_tag direct_tag labels
        | some tunnel ↦ returned (through tunnel, tag)
      ]

  -- The proxy tunnel for a group that passed.
  unfoldable pub proxy_choice : Option (Option Text) → Option (AnyInTunnel × Option Text)
  proxy_choice none = none
  proxy_choice (some tag) =
      Option.map (λ tunnel. (through tunnel, tag)) (select_labelled (built_in proxy))

  unfoldable pub labels_groups_loop :
      Option (Option Text) → List Labels → Option (AnyInTunnel × Option Text)
  labels_groups_loop direct_tag [] = Option.map (λ tag. (direct_tunnel, tag)) direct_tag
  labels_groups_loop direct_tag (labels ∷ groups) = elim (labels_loop none direct_tag labels) [
    | returned choice ↦ some choice
    | passed proxy_tag direct_tag' ↦ elim (proxy_choice proxy_tag) [
      | some choice ↦ some choice
      | none ↦ labels_groups_loop direct_tag' groups
    ]
  ]

-- The index counts on, and wraps as `fetch_add` does.
unfoldable pub select_tunnel :
    (InTunnel → Bool)
    → TunnelManager
    → List Labels
    → TunnelManager × Option (AnyInTunnel × Option Text)
select_tunnel is_active self labels_groups = (
  record self { select_index = (self.select_index + 1) % 2 ^ 64 },
  labels_groups_loop is_active self.label_to_tunnels_map self.select_index none labels_groups,
)

-- `entry(label).or_default().push(tunnel)`.
unfoldable pub push_tunnel : Label → InTunnel → LabelToTunnelsMap → LabelToTunnelsMap
push_tunnel label tunnel label_map =
    HashMap.insert label (Option.get_or (HashMap.get label label_map) [] ++ tunnel ∷ []) label_map

unfoldable pub push_under : List Label → InTunnel → LabelToTunnelsMap → LabelToTunnelsMap
push_under [] tunnel label_map = label_map
push_under (label ∷ labels) tunnel label_map =
    push_under labels tunnel (push_tunnel label tunnel label_map)

-- `out_text` is the text of an OUT's id.
module _ (out_text : ℕ → Text) where
  abbrev pub offered_labels : InTunnel → List Label
  offered_labels tunnel = tunnel.labels ++ built_in proxy ∷ custom (out_text tunnel.out_id) ∷ []

  unfoldable pub push_tunnels : List (ℕ × InTunnel) → LabelToTunnelsMap → LabelToTunnelsMap
  push_tunnels [] label_map = label_map
  push_tunnels ((_, tunnel) ∷ tunnels) label_map =
      push_tunnels tunnels (push_under (offered_labels tunnel) tunnel label_map)

-- `order` is the order in which the map of tunnels is iterated.
module _ (out_text : ℕ → Text) (order : List (ℕ × InTunnel) → List (ℕ × InTunnel)) where
  unfoldable pub update_label_to_tunnels_map : List (ℕ × InTunnel) → LabelToTunnelsMap
  update_label_to_tunnels_map tunnel_map =
      map (λ e. (e.0, sort_by_key (λ (t : InTunnel). t.priority) e.1))
        (push_tunnels out_text (order tunnel_map) [])

  abbrev with_tunnels : TunnelManager → List (ℕ × InTunnel) → TunnelManager
  with_tunnels self tunnel_map = record self {
    tunnel_map = tunnel_map;
    label_to_tunnels_map = update_label_to_tunnels_map tunnel_map;
  }

  -- `handle_out`: a tunnel that was accepted, and one that closed. The router's part is
  -- `register_tunnel` and `unregister_tunnel`.
  unfoldable pub tunnel_accepted : TunnelManager → InTunnel → TunnelManager
  tunnel_accepted self tunnel = with_tunnels self (HashMap.insert tunnel.id tunnel self.tunnel_map)

  unfoldable pub tunnel_closed : TunnelManager → ℕ → TunnelManager
  tunnel_closed self tunnel_id = with_tunnels self (HashMap.remove tunnel_id self.tunnel_map)
