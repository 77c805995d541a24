-- ===== src/Route/Router/Match.antt =====
-- `Router::match` (src/lib/route/router.rs): where its labels come from.
use plug2proxy.Prelude.{
  ◌≡◌, refl, ◌⊎◌, inl, inr, Bool, not, ◌||◌, Option, none, some, List, [], ◌∷◌, map, is_empty, Elem,
  Elem-append, map-Elem, ap, subst, Elem-append_left, All, All-append, All-elem, Elem-append_right,
}
use plug2proxy.Net.{Text, SocketAddr}
use plug2proxy.Route.Label.{Label}
use plug2proxy.Route.Rule.{RuleTrait}
use plug2proxy.Route.Router.{Router, Labels, extend, push_labels, match_rules, match_groups, match}
use plug2proxy.Route.Router.Groups.{concat}

module _ {R : Type 0} (t : RuleTrait R) (address : SocketAddr) (domain : Option Text)
    (region_codes : Option (List Text)) where
  -- A rule that gave the label, with its own tag.
  abbrev pub IsFrom : Label × Option Text → R → Type 0
  IsFrom (label, tag) rule =
      (any_matched : Bool) × (labels : List Label) × (t.match rule address domain region_codes
          any_matched
        ≡ some labels)
      × Elem label labels
      × (t.tag rule ≡ tag)

  abbrev Sourced : Label × Option Text → List R → Type 0
  Sourced l rules = (rule : R) × Elem rule rules × IsFrom l rule

  matched-IsFrom :
      (rule : R) (l : Label × Option Text) (any_matched : Bool) (labels : List Label)
      → t.match rule address domain region_codes any_matched ≡ some labels
      → Elem l (map (λ label. (label, t.tag rule)) labels)
      → IsFrom l rule
  matched-IsFrom rule l b labels h m =
      let (label, k, e) = map-Elem (λ (label : Label). (label, t.tag rule)) labels l m in
      (
        b,
        labels,
        h,
        subst (λ x. Elem x labels) (ap (λ (p : Label × Option Text). p.0) e) k,
        ap (λ (p : Label × Option Text). p.1) e,
      )

  extend-IsFrom :
      (rule : R) (any_matched : Bool) (result : Option (List Label)) (labels : Labels)
      (l : Label × Option Text)
      → t.match rule address domain region_codes any_matched ≡ result
      → Elem l (extend t rule result labels)
      → Elem l labels ⊎ IsFrom l rule
  extend-IsFrom rule b none labels l h m = inl m
  extend-IsFrom rule b (some matched) labels l h m =
      elim (Elem-append labels (map (λ label. (label, t.tag rule)) matched) l m) [
        | inl k ↦ inl k
        | inr k ↦ inr (matched-IsFrom rule l b matched h k)
      ]

  match_rules-Sourced :
      (already : Bool) (labels : Labels) (rules : List R) (l : Label × Option Text)
      → Elem l (match_rules t address domain region_codes already labels rules)
      → Elem l labels ⊎ Sourced l rules
  unfolding match_rules
  match_rules-Sourced already labels [] l m = inl m
  match_rules-Sourced already labels (rule ∷ rules) l m =
      let any_matched = already || not (is_empty labels) in
      let result = t.match rule address domain region_codes any_matched in
      elim (match_rules-Sourced already (extend t rule result labels) rules l m) [
        | inl k ↦ elim (extend-IsFrom rule any_matched result labels l refl k) [
          | inl old ↦ inl old
          | inr here ↦ inr (rule, inl refl, here)
        ]
        | inr (later, k, from) ↦ inr (later, inr k, from)
      ]

  -- Every label of every group of the accumulator has a source.
  abbrev AllSourced : List R → List Labels → Type 0
  AllSourced rules = All (λ labels. (l : Label × Option Text) → Elem l labels → Sourced l rules)

  Sourced-in :
      (all group : List R) (l : Label × Option Text)
      → ((rule : R) → Elem rule group → Elem rule all)
      → Elem l [] ⊎ Sourced l group
      → Sourced l all
  Sourced-in all group l sub (inl none_yet) = absurd none_yet
  Sourced-in all group l sub (inr (rule, k, from)) = (rule, sub rule k, from)

  pushed :
      (all : List R) (labels_groups : List Labels) (labels : Labels)
      → AllSourced all labels_groups
      → ((l : Label × Option Text) → Elem l labels → Sourced l all)
      → AllSourced all (push_labels t labels_groups labels)
  pushed all labels_groups [] h new = h
  pushed all labels_groups (l ∷ labels) h new =
      All-append _ labels_groups ((l ∷ labels) ∷ []) h (new, tt)

  match_groups-AllSourced :
      (all : List R) (groups : List (List R)) (labels_groups : List Labels)
      → ((rule : R) → Elem rule (concat groups) → Elem rule all)
      → AllSourced all labels_groups
      → AllSourced all (match_groups t address domain region_codes labels_groups groups)
  unfolding match_groups
  match_groups-AllSourced all [] labels_groups sub h = h
  match_groups-AllSourced all (rules ∷ groups) labels_groups sub h =
      let already = not (is_empty labels_groups) in
      let labels = match_rules t address domain region_codes already [] rules in
      match_groups-AllSourced all groups (push_labels t labels_groups labels)
        (λ rule k. sub rule (Elem-append_right rules (concat groups) rule k))
        (pushed all labels_groups labels h (λ l k.
          Sourced-in all rules l
            (λ rule e. sub rule (Elem-append_left rules (concat groups) rule e))
            (match_rules-Sourced already [] rules l k)))

  -- Every label that a match gives, and its tag, come from a rule of the cache that matched the
  -- request, whatever `unique` drops.
  pub match-IsFrom :
      (unique : List Labels → List Labels) (router : Router R)
      → ((g : Labels) (gs : List Labels) → Elem g (unique gs) → Elem g gs)
      → (g : Labels) (l : Label × Option Text)
      → Elem g (match t unique router address domain region_codes)
      → Elem l g
      → (rule : R) × Elem rule (concat router.rules_groups_cache) × IsFrom l rule
  unfolding match
  match-IsFrom unique router unique_elem g l m k =
      All-elem (λ labels. (l : Label × Option Text) → Elem l labels → Sourced l _)
        (match_groups t address domain region_codes [] router.rules_groups_cache) g
        (match_groups-AllSourced (concat router.rules_groups_cache) router.rules_groups_cache []
          (λ rule e. e) tt)
        (unique_elem g _ m) l k
