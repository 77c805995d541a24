-- ===== src/Manager/Examples.antt =====
-- The manager's theorems with one tunnel, and with two of different priorities.
use mathlib.Core.List.Permᴰ
use plug2proxy.Prelude.{
  ℕ, pos, ◌%◌, ◌<◌, ◌≡◌, ◌≢◌, ◌↔◌, refl, inl, Bool, true, false, none, some, List, [], ◌∷◌, Elem,
  arith, filter, length, SortedBy, insert_by, sort_by_key,
}
use plug2proxy.Net.{Text}
use plug2proxy.HashMap
use plug2proxy.Route.Label.{Label, built_in, custom, direct, proxy, any}
use plug2proxy.Route.Router.{Labels}
use plug2proxy.Manager.{
  InTunnel, new_manager, through, take_while, tunnels_with_top_priority, select_from_tunnels,
  select_labelled, proxy_choice, labels_loop, labels_groups_loop, select_tunnel, push_tunnel,
  push_under, push_tunnels, offered_labels, update_label_to_tunnels_map, tunnel_accepted,
}
use plug2proxy.Manager.Select.{IsTop, select_from_tunnels-IsTop, select_from_tunnels-turn}
use plug2proxy.Manager.Offers.{tunnels_at, update_label_to_tunnels_map-offers}
use plug2proxy.Manager.Live.{ManagerEvent, accepted, manage, manage_all}
use plug2proxy.Manager.Available.{Available, Fits, select_tunnel-Fits, select_tunnel-none}

abbrev first : InTunnel
first = record { id = 1; out_id = 7; labels = []; priority = pos 1 }

abbrev second : InTunnel
second = record { id = 2; out_id = 7; labels = []; priority = pos 2 }

abbrev all_active : InTunnel → Bool
all_active t = true

abbrev none_active : InTunnel → Bool
none_active t = false

abbrev both : List InTunnel
both = first ∷ second ∷ []

both_sorted : SortedBy (λ (t : InTunnel). t.priority) both
both_sorted = ((omega arith, tt), (tt, tt))

first_selected : select_from_tunnels all_active both 5 ≡ some first
unfolding select_from_tunnels tunnels_with_top_priority take_while
first_selected = refl

select_from_tunnels-IsTop_example : IsTop all_active both first
select_from_tunnels-IsTop_example =
    select_from_tunnels-IsTop all_active both 5 first both_sorted first_selected

select_from_tunnels-turn_example :
    (turn : ℕ) × (turn < length (tunnels_with_top_priority (filter all_active both)))
    × ((index : ℕ)
        → index % length (tunnels_with_top_priority (filter all_active both)) ≡ turn
        → select_from_tunnels all_active both index ≡ some first)
select_from_tunnels-turn_example =
    select_from_tunnels-turn all_active both first both_sorted select_from_tunnels-IsTop_example

abbrev out_text : ℕ → Text
out_text id = id ∷ []

abbrev same_order : List (ℕ × InTunnel) → List (ℕ × InTunnel)
same_order m = m

update_label_to_tunnels_map-offers_example :
    SortedBy
      (λ (t : InTunnel). t.priority)
      (tunnels_at
        (built_in proxy)
        (update_label_to_tunnels_map out_text same_order ((2, second) ∷ (1, first) ∷ [])))
    × ((t : InTunnel)
        → Elem t (
            tunnels_at
              (built_in proxy)
              (update_label_to_tunnels_map out_text same_order ((2, second) ∷ (1, first) ∷ [])))
          ↔ (((id : ℕ) × Elem {A = ℕ × InTunnel} (id, t) ((2, second) ∷ (1, first) ∷ []))
              × Elem (built_in proxy) (offered_labels out_text t)))
update_label_to_tunnels_map-offers_example =
    update_label_to_tunnels_map-offers out_text same_order (λ m. Permᴰ.refl m)
      ((2, second) ∷ (1, first) ∷ []) (built_in proxy)

abbrev came_up : List ManagerEvent
came_up = accepted second ∷ accepted first ∷ []

abbrev groups : List Labels
groups = ((custom (7 ∷ []), none) ∷ []) ∷ []

first_chosen :
    (select_tunnel all_active (manage_all out_text same_order new_manager came_up) groups).1
    ≡ some (through first, none)
unfolding select_tunnel manage_all manage tunnel_accepted update_label_to_tunnels_map push_tunnels
    push_under push_tunnel labels_groups_loop labels_loop select_labelled select_from_tunnels
    tunnels_with_top_priority take_while sort_by_key insert_by HashMap.get HashMap.insert
first_chosen = refl

select_tunnel-Fits_example :
    (label : Label) × ((labels : Labels) × Elem labels groups × Elem (label, none) labels)
    × Fits out_text
        (manage_all out_text same_order new_manager came_up)
        all_active
        label
        (through first)
select_tunnel-Fits_example =
    select_tunnel-Fits out_text same_order (λ m. Permᴰ.refl m) came_up all_active groups
      (through first) none first_chosen

nothing_chosen :
    (select_tunnel none_active (manage_all out_text same_order new_manager came_up) groups).1 ≡ none
unfolding select_tunnel manage_all manage tunnel_accepted update_label_to_tunnels_map push_tunnels
    push_under push_tunnel labels_groups_loop labels_loop select_labelled select_from_tunnels
    tunnels_with_top_priority take_while sort_by_key insert_by HashMap.get HashMap.insert
    proxy_choice
nothing_chosen = refl

select_tunnel-none_example :
    (custom (7 ∷ []) ≢ built_in direct)
    × (custom (7 ∷ []) ≢ built_in any)
    × ((t : InTunnel)
        → ¬ Available out_text
            (manage_all out_text same_order new_manager came_up)
            none_active
            (custom (7 ∷ []))
            t)
select_tunnel-none_example =
    select_tunnel-none out_text same_order (λ m. Permᴰ.refl m) came_up none_active groups
      nothing_chosen ((custom (7 ∷ []), none) ∷ []) (custom (7 ∷ [])) none (inl refl) (inl refl)
