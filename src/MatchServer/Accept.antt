-- ===== src/MatchServer/Accept.antt =====
-- src/lib/match_server/redis_match_server.rs: `RedisInMatchServer`, the OUTs that an IN has accepted. A step
-- is what happens while the lock of a pair's set is held.
pub mod Active
pub mod Once
mod Examples
use mathlib.Core.Option
use plug2proxy.Prelude.{
  ℕ, nat_eq, list_eq, ◌≡◌, Bool, true, false, Option, none, some, List, [], ◌∷◌, if◌then◌else◌,
}
use plug2proxy.Net.{Text}
use plug2proxy.HashMap
use plug2proxy.HashMap.{contains, set_insert, set_remove}
use plug2proxy.MatchServer.Keys.{MatchPair, get_match_name, Uuids, get_out_id_from_redis_out_key}

pub record InMatchServer : Type 0 where
  pub match_name_to_active_out_id_set_map : List (Text × List ℕ)

abbrev pub new_server : InMatchServer
new_server = record { match_name_to_active_out_id_set_map = [] }

-- `entry(match_name).or_default()`.
unfoldable pub active_out_id_set : MatchPair → InMatchServer → List ℕ
active_out_id_set pair self =
    Option.get_or (HashMap.get (get_match_name pair) self.match_name_to_active_out_id_set_map) []

unfoldable pub with_set : MatchPair → List ℕ → InMatchServer → InMatchServer
with_set pair set self = record {
  match_name_to_active_out_id_set_map =
      HashMap.insert (get_match_name pair) set self.match_name_to_active_out_id_set_map;
}

-- The first key of an OUT that is not active; one that does not parse is passed over.
unfoldable pub first_inactive : Uuids → List ℕ → List Text → Option ℕ
first_inactive uuids set [] = none
first_inactive uuids set (out_key ∷ out_keys) =
    let rest = first_inactive uuids set out_keys in
    elim (get_out_id_from_redis_out_key uuids out_key) [
      | none ↦ rest
      | some out_id ↦ if contains set out_id then rest else some out_id
    ]

-- `accept_out` by the keys that `scan_match` gives: the set is there afterwards, and the OUT is in it.
unfoldable pub accept_by_key :
    Uuids → MatchPair → List Text → InMatchServer → InMatchServer × Option ℕ
accept_by_key uuids pair out_keys self =
    let set = active_out_id_set pair self in
    elim (first_inactive uuids set out_keys) [
      | none ↦ (with_set pair set self, none)
      | some out_id ↦ (with_set pair (set_insert out_id set) self, some out_id)
    ]

-- `accept_out` by one message of the subscription.
unfoldable pub accept_by_message : MatchPair → ℕ → InMatchServer → InMatchServer × Option ℕ
accept_by_message pair out_id self =
    let set = active_out_id_set pair self in
    if contains set out_id
    then (self, none)
    else (with_set pair (set_insert out_id set) self, some out_id)

-- `match_out` for an OUT whose key is gone; `none` is the panic of `get(match_name).unwrap()`.
unfoldable pub out_gone : MatchPair → ℕ → InMatchServer → Option InMatchServer
out_gone pair out_id self =
    elim (HashMap.get (get_match_name pair) self.match_name_to_active_out_id_set_map) [
      | none ↦ none
      | some set ↦ some (with_set pair (set_remove out_id set) self)
    ]

-- What is seen from outside: `accept_out` has returned an OUT, or `match_out` has returned `None` for one.
pub data Event : Type 0 where
  accepted : MatchPair → ℕ → Event
  released : MatchPair → ℕ → Event

abbrev pub accept_event : MatchPair → Option ℕ → List Event → List Event
accept_event pair none events = events
accept_event pair (some out_id) events = accepted pair out_id ∷ events

-- The steps of any number of tasks in any order, with the events in theirs.
pub data Run (uuids : Uuids) : InMatchServer → List Event → Type 0 where
  rest : (self : InMatchServer) → Run uuids self []
  by_key :
      (pair : MatchPair) (out_keys : List Text) (self : InMatchServer) (events : List Event)
      → Run uuids (accept_by_key uuids pair out_keys self).0 events
      → Run uuids self (accept_event pair (accept_by_key uuids pair out_keys self).1 events)
  by_message :
      (pair : MatchPair) (out_id : ℕ) (self : InMatchServer) (events : List Event)
      → Run uuids (accept_by_message pair out_id self).0 events
      → Run uuids self (accept_event pair (accept_by_message pair out_id self).1 events)
  gone :
      (pair : MatchPair) (out_id : ℕ) (self self' : InMatchServer) (events : List Event)
      → out_gone pair out_id self ≡ some self'
      → Run uuids self' events
      → Run uuids self (released pair out_id ∷ events)
