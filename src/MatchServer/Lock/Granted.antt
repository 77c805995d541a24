-- ===== src/MatchServer/Lock/Granted.antt =====
-- Which attempts get the lock of their match key (src/lib/match_server/redis_match_server.rs).
use plug2proxy.Prelude.{
  ℕ, ◌+◌, ◌-◌, ◌≤◌, ◌≡◌, refl, sym, ap, ◌∙◌, subst, inl, inr, Bool, true, false, not, ◌&&◌, ◌||◌,
  Bool-cases, List, [], ◌∷◌, ◌++◌, if◌then◌else◌, if_true, if_false, ltb, any, ◌==◌, ==_refl, ==_eq,
  ==_ne, list_eq, nat_eq, length, length-append, take, take-append, arith,
}
use plug2proxy.Net.{Text}
use plug2proxy.MatchServer.Keys.{codes}
use plug2proxy.MatchServer.Messages.{match_lock_key}
use plug2proxy.MatchServer.Lock.{
  match_timeout_seconds, Redis, RedisLaws, Attempt, lock_match, locked,
}

-- Whether one of these locks is of the key and less than 5 seconds old.
abbrev pub blocked : List Attempt → ℕ → Text → Bool
blocked locks now match_key =
    any (λ (lock : Attempt). (lock.1 == match_key) && ltb now (lock.0 + 5)) locks

-- The attempts that get the lock: those whose match key was not locked in the 5 seconds before.
abbrev pub granted : List Attempt → List Attempt → List Attempt
granted locks [] = []
granted locks ((now, match_key) ∷ attempts) =
    if blocked locks now match_key
    then granted locks attempts
    else (now, match_key) ∷ granted ((now, match_key) ∷ locks) attempts

-- The attempts come one after the other.
abbrev pub InOrder : ℕ → List Attempt → Type 0
InOrder last [] = Unit
InOrder last ((now, match_key) ∷ attempts) = (last ≤ now) × InOrder now attempts

blocked_later :
    (locks : List Attempt) (now time : ℕ) (match_key : Text)
    → now ≤ time
    → blocked locks now match_key ≡ false
    → blocked locks time match_key ≡ false
blocked_later [] now time match_key l h = refl
blocked_later ((t, k) ∷ locks) now time match_key l h =
    ground (arith, blocked_later locks now time match_key l)

-- The key of a lock.
abbrev unlocked : Text → Text
unlocked lock_key = take (length lock_key - 5) lock_key

unlocked-match_lock_key : (match_key : Text) → unlocked (match_lock_key match_key) ≡ match_key
unlocked-match_lock_key match_key =
    let e : length (match_key ++ codes ":lock") - 5 ≡ length match_key =
      omega (arith, length-append match_key (codes ":lock")) in
    subst (λ n. take n (match_key ++ codes ":lock") ≡ match_key) (sym e)
      (take-append match_key (codes ":lock"))

match_lock_key-== : (k key : Text) → (match_lock_key k == match_lock_key key) ≡ (k == key)
match_lock_key-== k key = elim (Bool-cases (k == key)) [
  | inl e ↦
      subst (λ z. (match_lock_key k == match_lock_key z) ≡ true) (==_eq k key e)
        (==_refl (match_lock_key k))
      ∙ sym e
  | inr e ↦
      ==_ne (match_lock_key k) (match_lock_key key) (λ same. cc (
        sym (
          subst (λ z. (k == z) ≡ true)
            (sym (unlocked-match_lock_key k) ∙ ap unlocked same ∙ unlocked-match_lock_key key)
            (==_refl k))
        ∙ e))
      ∙ sym e
]

module _ (redis : Redis) (laws : RedisLaws redis) where
  -- From a time on, the locks in the store are those that were granted.
  abbrev IsBlocking : redis.Store → List Attempt → ℕ → Type 0
  IsBlocking store locks last =
      (match_key : Text) (time : ℕ)
      → last ≤ time
      → redis.exists store (match_lock_key match_key) time ≡ blocked locks time match_key

  abbrev after : redis.Store → ℕ → Text → redis.Store × Bool
  after store now match_key =
      redis.set_nx_ex (match_lock_key match_key) match_timeout_seconds now store

  kept-IsBlocking :
      (store : redis.Store) (locks : List Attempt) (last now : ℕ) (match_key : Text)
      → last ≤ now
      → IsBlocking store locks last
      → blocked locks now match_key ≡ true
      → IsBlocking (after store now match_key).0 locks now
  kept-IsBlocking store locks last now match_key l inv b k time h =
      laws.exists_set (match_lock_key match_key) (match_lock_key k) match_timeout_seconds now time
        store h
      ∙ if_false _ _ (there k)
      ∙ inv k time (omega arith)
    where
      there :
          (k : Text)
          → ((match_lock_key match_key == match_lock_key k)
              && not (redis.exists store (match_lock_key match_key) now))
            ≡ false
      there k =
          let e : redis.exists store (match_lock_key match_key) now ≡ true =
            inv match_key now l ∙ b in
          ground arith

  locked-IsBlocking :
      (store : redis.Store) (locks : List Attempt) (last now : ℕ) (match_key : Text)
      → last ≤ now
      → IsBlocking store locks last
      → blocked locks now match_key ≡ false
      → IsBlocking (after store now match_key).0 ((now, match_key) ∷ locks) now
  locked-IsBlocking store locks last now match_key l inv b k time h =
      let absent : redis.exists store (match_lock_key match_key) now ≡ false =
        inv match_key now l ∙ b in
      laws.exists_set (match_lock_key match_key) (match_lock_key k) match_timeout_seconds now time
        store h
      ∙ elim (Bool-cases (match_key == k)) [
        | inr e ↦
            let other : ((match_lock_key match_key == match_lock_key k)
                  && not (redis.exists store (match_lock_key match_key) now))
                ≡ false =
              rw (match_lock_key-== match_key k, e) in
            if_false (ltb time (now + match_timeout_seconds))
              (redis.exists store (match_lock_key k) time) other
            ∙ inv k time (omega arith)
            ∙ rw e
        | inl e ↦
            let later : blocked locks time k ≡ false =
              subst (λ z. blocked locks time z ≡ false) (==_eq match_key k e)
                (blocked_later locks now time match_key h b) in
            let same : ((match_lock_key match_key == match_lock_key k)
                  && not (redis.exists store (match_lock_key match_key) now))
                ≡ true =
              rw (match_lock_key-== match_key k, e, absent) in
            let held : ltb time (now + 5) ≡ ((ltb time (now + 5)) || blocked locks time k) =
              ground arith in
            if_true (ltb time (now + match_timeout_seconds))
              (redis.exists store (match_lock_key k) time) same
            ∙ held
            ∙ rw e
      ]

  locked-granted_from :
      (store : redis.Store) (locks : List Attempt) (last : ℕ) (attempts : List Attempt)
      → IsBlocking store locks last
      → InOrder last attempts
      → locked redis store attempts ≡ granted locks attempts
  unfolding locked lock_match
  locked-granted_from store locks last [] inv order = refl
  locked-granted_from store locks last ((now, match_key) ∷ attempts) inv (l, order) =
      let set = after store now match_key in
      let rest = locked redis set.0 attempts in
      let whether : set.1 ≡ not (blocked locks now match_key) =
        laws.set_absent (match_lock_key match_key) match_timeout_seconds now store
        ∙ ap not (inv match_key now l) in
      elim (Bool-cases (blocked locks now match_key)) [
        | inl b ↦
            if_false ((now, match_key) ∷ rest) rest (whether ∙ ap not b)
            ∙ locked-granted_from set.0 locks now attempts
                (kept-IsBlocking store locks last now match_key l inv b) order
            ∙ sym (if_true _ _ b)
        | inr b ↦
            if_true ((now, match_key) ∷ rest) rest (whether ∙ ap not b)
            ∙ ap (λ z. (now, match_key) ∷ z)
                (locked-granted_from set.0 ((now, match_key) ∷ locks) now attempts
                  (locked-IsBlocking store locks last now match_key l inv b) order)
            ∙ sym (if_false _ _ b)
      ]

  -- Of the announcements that any number of OUTs and calls of `match_in` get one after the other, over a store
  -- without locks, exactly those get the lock of their match key before which no other of the same match
  -- key got it in the last 5 seconds: the locks of other match keys do not matter.
  pub locked-granted :
      (store : redis.Store) (attempts : List Attempt)
      → ((match_key : Text) (time : ℕ) → redis.exists store (match_lock_key match_key) time ≡ false)
      → InOrder 0 attempts
      → locked redis store attempts ≡ granted [] attempts
  locked-granted store attempts empty order =
      locked-granted_from store [] 0 attempts (λ match_key time h. empty match_key time) order
