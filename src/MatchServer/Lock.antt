-- ===== src/MatchServer/Lock.antt =====
-- src/lib/match_server/redis_match_server.rs: the lock of a match key, which `match_in` sets in Redis.
pub mod Granted
mod Examples
use plug2proxy.Prelude.{
  ℕ, ◌+◌, ◌≤◌, ◌≡◌, Bool, not, ◌&&◌, List, [], ◌∷◌, if◌then◌else◌, ltb, ◌==◌, list_eq, nat_eq,
}
use plug2proxy.Net.{Text}
use plug2proxy.MatchServer.Messages.{match_lock_key}

abbrev pub match_timeout_seconds : ℕ
match_timeout_seconds = 5

-- Redis, as far as it is used here: `SET key "" NX EX seconds` at a time, with whether it set the key, and
-- whether a key is there at a time.
pub record Redis : Type 1 where
  pub Store : Type 0
  pub set_nx_ex : Text → ℕ → ℕ → Store → Store × Bool
  pub exists : Store → Text → ℕ → Bool

-- As documented: the key is set where it is not there; then it is there until it expires; and nothing
-- changes of another key, or where the key is there.
pub record RedisLaws (redis : Redis) : Type 0 where
  pub set_absent :
      (key : Text) (seconds now : ℕ) (store : redis.Store)
      → (redis.set_nx_ex key seconds now store).1 ≡ not (redis.exists store key now)
  pub exists_set :
      (key other : Text) (seconds now time : ℕ) (store : redis.Store)
      → now ≤ time
      → redis.exists (redis.set_nx_ex key seconds now store).0 other time ≡ (
          if (key == other) && not (redis.exists store key now)
          then ltb time (now + seconds)
          else redis.exists store other time)

-- A call of `match_in` that has got an announcement: when, and the match key.
abbrev pub Attempt : Type 0
Attempt = ℕ × Text

module _ (redis : Redis) where
  unfoldable pub lock_match : redis.Store → Attempt → redis.Store × Bool
  lock_match store (now, match_key) =
      redis.set_nx_ex (match_lock_key match_key) match_timeout_seconds now store

  -- The attempts of any number of OUTs and calls, one after the other, and those that got the lock.
  unfoldable pub locked : redis.Store → List Attempt → List Attempt
  locked store [] = []
  locked store (attempt ∷ attempts) =
      let after = lock_match store attempt in
      let rest = locked after.0 attempts in if after.1 then attempt ∷ rest else rest
