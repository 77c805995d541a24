-- ===== src/MatchServer/Lock/Examples.antt =====
-- Four announcements of two match keys, over a store that is a list of keys and the times they expire.
use plug2proxy.Prelude.{
  ℕ, ◌+◌, ◌≤◌, ◌≡◌, refl, sym, ap, ◌∙◌, subst, inl, inr, Bool, true, false, not, ◌&&◌, Bool-cases,
  List, [], ◌∷◌, if◌then◌else◌, if_true, if_false, ltb, any, ◌==◌, ==_eq, list_eq, nat_eq, arith,
}
use plug2proxy.Net.{Text}
use plug2proxy.MatchServer.Lock.{Redis, RedisLaws, Attempt, locked}
use plug2proxy.MatchServer.Lock.Granted.{granted, locked-granted}

abbrev Entry : Type 0
Entry = Text × ℕ

abbrev exists : List Entry → Text → ℕ → Bool
exists store key now = any (λ (entry : Entry). (entry.0 == key) && ltb now entry.1) store

abbrev set : Text → ℕ → ℕ → List Entry → List Entry × Bool
set key seconds now store =
    if exists store key now then (store, false) else ((key, now + seconds) ∷ store, true)

abbrev redis : Redis
redis = record { Store = List Entry; set_nx_ex = set; exists = exists }

expired_later :
    (store : List Entry) (key : Text) (now time : ℕ)
    → now ≤ time
    → exists store key now ≡ false
    → exists store key time ≡ false
expired_later [] key now time l h = refl
expired_later ((k, t) ∷ store) key now time l h = ground (arith, expired_later store key now time l)

module _ (key : Text) (seconds now : ℕ) (store : List Entry) where
  abbrev present : List Entry × Bool
  present = (store, false)

  abbrev added : List Entry × Bool
  added = ((key, now + seconds) ∷ store, true)

  set_absent : (set key seconds now store).1 ≡ not (exists store key now)
  set_absent = elim (Bool-cases (exists store key now)) [
    | inl b ↦ ap (λ (r : List Entry × Bool). r.1) (if_true present added b) ∙ sym (ap not b)
    | inr b ↦ ap (λ (r : List Entry × Bool). r.1) (if_false present added b) ∙ sym (ap not b)
  ]

  exists_set :
      (other : Text) (time : ℕ)
      → now ≤ time
      → exists (set key seconds now store).0 other time ≡ (
          if (key == other) && not (exists store key now)
          then ltb time (now + seconds)
          else exists store other time)
  exists_set other time l = elim (Bool-cases (exists store key now)) [
    | inl b ↦
        ap (λ (r : List Entry × Bool). exists r.0 other time) (if_true present added b)
        ∙ sym (if_false (ltb time (now + seconds)) (exists store other time) (there other b))
    | inr b ↦
        ap (λ (r : List Entry × Bool). exists r.0 other time) (if_false present added b)
        ∙ elim (Bool-cases (key == other)) [
          | inr e ↦ rw e
          | inl e ↦
              let later : exists store other time ≡ false =
                subst (λ k. exists store k time ≡ false) (==_eq key other e)
                  (expired_later store key now time l b) in
              rw (e, later, b) (ground arith)
        ]
  ]
    where
      there :
          (other : Text)
          → exists store key now ≡ true
          → ((key == other) && not (exists store key now)) ≡ false
      there other b = ground arith

laws : RedisLaws redis
laws = record {
  set_absent = set_absent;
  exists_set = λ key other seconds now time store. exists_set key seconds now store other time;
}

abbrev attempts : List Attempt
attempts = (10, 97 ∷ []) ∷ (11, 97 ∷ []) ∷ (12, 98 ∷ []) ∷ (15, 97 ∷ []) ∷ []

locked-granted_example : locked redis [] attempts ≡ granted [] attempts
locked-granted_example =
    locked-granted redis laws [] attempts (λ match_key time. refl)
      (omega arith, (omega arith, (omega arith, (omega arith, tt))))
