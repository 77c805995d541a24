-- ===== src/MatchServer/Accept/Active.antt =====
-- Which OUTs are active after each step of an IN (src/lib/match_server/redis_match_server.rs).
use mathlib.Core.Option
use plug2proxy.Prelude.{
  ℕ, nat_eq, list_eq, ◌==◌, ==_refl, ==_eq, ◌≡◌, ◌≢◌, refl, sym, ap, ◌∙◌, subst, ◌⊎◌, inl, inr,
  true, false, Bool-cases, Option-cases, some-eq-some, Option, none, some, List, [], ◌∷◌, if_true,
  if_false, nat_beq, nat_beq_iff, arith,
}
use plug2proxy.Net.{Text}
use plug2proxy.HashMap
use plug2proxy.HashMap.{
  contains, set_insert, set_remove, get-insert, contains-set_insert, contains-set_remove,
}
use plug2proxy.MatchServer.Keys.{MatchPair, get_match_name, Uuids, get_out_id_from_redis_out_key}
use plug2proxy.MatchServer.Keys.Own.{get_match_name_injective}
use plug2proxy.MatchServer.Accept.{
  InMatchServer, active_out_id_set, with_set, first_inactive, accept_by_key, accept_by_message,
  out_gone,
}

abbrev pub IsActive : MatchPair → ℕ → InMatchServer → Type 0
IsActive pair id self = contains (active_out_id_set pair self) id ≡ true

different : (x y : Text) → x ≡ y → (x == y) ≡ false → ⊥
different x y p e =
    let same : (x == y) ≡ true = subst (λ z. (x == z) ≡ true) p (==_refl x) in cc (sym same ∙ e)

active-with_set :
    (pair pair' : MatchPair) (set : List ℕ) (self : InMatchServer)
    → ((pair ≡ pair') × (active_out_id_set pair (with_set pair' set self) ≡ set))
      ⊎ ((pair ≢ pair')
          × (active_out_id_set pair (with_set pair' set self) ≡ active_out_id_set pair self))
unfolding active_out_id_set with_set
active-with_set pair pair' set self =
    let found =
      get-insert (get_match_name pair') (get_match_name pair) set
        self.match_name_to_active_out_id_set_map in
    elim (Bool-cases (get_match_name pair' == get_match_name pair)) [
      | inl e ↦ inl (
        sym (
            get_match_name_injective pair' pair
              (==_eq (get_match_name pair') (get_match_name pair) e)),
        ap (λ (o : Option (List ℕ)). Option.get_or o [])
            (found
              ∙ if_true (some set)
                  (HashMap.get (get_match_name pair) self.match_name_to_active_out_id_set_map) e),
      )
      | inr e ↦ inr (
        λ p. different (get_match_name pair') (get_match_name pair) (ap get_match_name (sym p)) e,
        ap (λ (o : Option (List ℕ)). Option.get_or o [])
            (found
              ∙ if_false (some set)
                  (HashMap.get (get_match_name pair) self.match_name_to_active_out_id_set_map) e),
      )
    ]

set_insert_keeps :
    (pair pair' : MatchPair) (id out_id : ℕ) (self : InMatchServer)
    → IsActive pair id self
    → IsActive pair id (with_set pair' (set_insert out_id (active_out_id_set pair' self)) self)
set_insert_keeps pair pair' id out_id self h =
    let set = active_out_id_set pair' self in
    elim (active-with_set pair pair' (set_insert out_id set) self) [
      | inl (p, e) ↦
          rw e (
            inserted out_id id set (subst (λ q. contains (active_out_id_set q self) id ≡ true) p h))
      | inr (p, e) ↦ rw e h
    ]
  where
    inserted :
        (a b : ℕ) (set : List ℕ) → contains set b ≡ true → contains (set_insert a set) b ≡ true
    inserted a b set h = ground (arith, contains-set_insert a b set)

set_insert-IsActive :
    (pair : MatchPair) (id : ℕ) (set : List ℕ) (self : InMatchServer)
    → IsActive pair id (with_set pair (set_insert id set) self)
set_insert-IsActive pair id set self = elim (active-with_set pair pair (set_insert id set) self) [
  | inl (p, e) ↦ rw e (ground (arith, contains-set_insert id id set, nat_beq_iff id id))
  | inr (p, e) ↦ absurd (p refl)
]

-- What accepting does: who is active stays so, and an OUT that is accepted was not active, and is.
abbrev pub Accepts : MatchPair → InMatchServer → InMatchServer × Option ℕ → Type 0
Accepts pair' self (self', none) =
    (pair : MatchPair) (id : ℕ) → IsActive pair id self → IsActive pair id self'
Accepts pair' self (self', some out_id) =
    (contains (active_out_id_set pair' self) out_id ≡ false)
    × IsActive pair' out_id self'
    × ((pair : MatchPair) (id : ℕ) → IsActive pair id self → IsActive pair id self')

insert-Accepts :
    (pair : MatchPair) (out_id : ℕ) (self : InMatchServer)
    → contains (active_out_id_set pair self) out_id ≡ false
    → Accepts pair self
        (with_set pair (set_insert out_id (active_out_id_set pair self)) self, some out_id)
insert-Accepts pair out_id self h = (
  h,
  set_insert-IsActive pair out_id (active_out_id_set pair self) self,
  λ pair' id. set_insert_keeps pair' pair id out_id self,
)

pub accept_by_message-Accepts :
    (pair : MatchPair) (out_id : ℕ) (self : InMatchServer)
    → Accepts pair self (accept_by_message pair out_id self)
unfolding accept_by_message
accept_by_message-Accepts pair out_id self =
    let set = active_out_id_set pair self in
    let taken : InMatchServer × Option ℕ =
      (with_set pair (set_insert out_id set) self, some out_id) in
    let left : InMatchServer × Option ℕ = (self, none) in
    elim (Bool-cases (contains set out_id)) [
      | inl b ↦ subst (Accepts pair self) (sym (if_true left taken b)) (λ pair' id h. h)
      | inr b ↦
          subst (Accepts pair self) (sym (if_false left taken b))
            (insert-Accepts pair out_id self b)
    ]

first_inactive-contains :
    (uuids : Uuids) (set : List ℕ) (out_keys : List Text) (id : ℕ)
    → first_inactive uuids set out_keys ≡ some id
    → contains set id ≡ false
unfolding first_inactive
first_inactive-contains uuids set [] id h = cc
first_inactive-contains uuids set (out_key ∷ out_keys) id h =
    elim (Option-cases (get_out_id_from_redis_out_key uuids out_key)) [
      | inl e ↦ first_inactive-contains uuids set out_keys id (rw (e, first_inactive) at h)
      | inr (out_id, e) ↦ elim (Bool-cases (contains set out_id)) [
        | inl b ↦ first_inactive-contains uuids set out_keys id (rw (e, b, first_inactive) at h)
        | inr b ↦
            subst (λ i. contains set i ≡ false) (some-eq-some (rw (e, b, first_inactive) at h)) b
      ]
    ]

kept_set :
    (pair pair' : MatchPair) (id : ℕ) (self : InMatchServer)
    → IsActive pair id self
    → IsActive pair id (with_set pair' (active_out_id_set pair' self) self)
kept_set pair pair' id self h =
    elim (active-with_set pair pair' (active_out_id_set pair' self) self) [
      | inl (p, e) ↦ rw e (subst (λ q. contains (active_out_id_set q self) id ≡ true) p h)
      | inr (p, e) ↦ rw e h
    ]

module _ (uuids : Uuids) (pair : MatchPair) (out_keys : List Text) (self : InMatchServer) where
  by_key_none :
      first_inactive uuids (active_out_id_set pair self) out_keys ≡ none
      → accept_by_key uuids pair out_keys self
        ≡ (with_set pair (active_out_id_set pair self) self, none)
  unfolding accept_by_key
  by_key_none e = rw (e, accept_by_key)

  by_key_some :
      (out_id : ℕ)
      → first_inactive uuids (active_out_id_set pair self) out_keys ≡ some out_id
      → accept_by_key uuids pair out_keys self
        ≡ (with_set pair (set_insert out_id (active_out_id_set pair self)) self, some out_id)
  unfolding accept_by_key
  by_key_some out_id e = rw (e, accept_by_key)

  pub accept_by_key-Accepts : Accepts pair self (accept_by_key uuids pair out_keys self)
  accept_by_key-Accepts =
      elim (Option-cases (first_inactive uuids (active_out_id_set pair self) out_keys)) [
        | inl e ↦
            subst (Accepts pair self) (sym (by_key_none e))
              (λ pair' id h. kept_set pair' pair id self h)
        | inr (out_id, e) ↦ subst (Accepts pair self) (sym (by_key_some out_id e)) (
            insert-Accepts pair out_id self
              (first_inactive-contains uuids (active_out_id_set pair self) out_keys out_id e))
      ]

-- An OUT that is gone is not active afterwards, and every other one is as before.
pub out_gone_keeps :
    (pair pair' : MatchPair) (id out_id : ℕ) (self self' : InMatchServer)
    → out_gone pair' out_id self ≡ some self'
    → IsActive pair id self
    → ((pair ≡ pair') × (id ≡ out_id)) ⊎ IsActive pair id self'
unfolding out_gone active_out_id_set
out_gone_keeps pair pair' id out_id self self' h active =
    elim (Option-cases
      (HashMap.get (get_match_name pair') self.match_name_to_active_out_id_set_map)) [
        | inl e ↦ cc (rw (e, out_gone) at h)
        | inr (set, e) ↦
            let after : with_set pair' (set_remove out_id set) self ≡ self' =
              some-eq-some (rw (e, out_gone) at h) in
            let old : active_out_id_set pair' self ≡ set = found set e in
            elim (active-with_set pair pair' (set_remove out_id set) self) [
              | inr (p, f) ↦ inr (subst (IsActive pair id) after (rw f active))
              | inl (p, f) ↦ elim (Bool-cases (nat_beq out_id id)) [
                | inl b ↦ inl (p, sym ((nat_beq_iff out_id id).0 b))
                | inr b ↦ inr (
                    subst (IsActive pair id) after (
                      rw f (
                        removed out_id id set b (
                          subst (λ xs. contains xs id ≡ true) old
                            (subst (λ q. contains (active_out_id_set q self) id ≡ true) p
                              active)))))
              ]
            ]
      ]
  where
    found :
        (set : List ℕ)
        → HashMap.get (get_match_name pair') self.match_name_to_active_out_id_set_map ≡ some set
        → active_out_id_set pair' self ≡ set
    found set e = ap (λ (o : Option (List ℕ)). Option.get_or o []) e

    removed :
        (a b : ℕ) (set : List ℕ)
        → nat_beq a b ≡ false
        → contains set b ≡ true
        → contains (set_remove a set) b ≡ true
    removed a b set h m = ground (arith, contains-set_remove a b set)
