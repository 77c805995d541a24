-- ===== src/MatchServer/Accept/Once.antt =====
-- An IN does not accept an OUT that it has accepted and not released
-- (src/lib/match_server/redis_match_server.rs).
use plug2proxy.Prelude.{
  ℕ, nat_eq, list_eq, ◌≡◌, sym, ◌∙◌, subst, ◌⊎◌, inl, inr, true, Option, none, some, List, [], ◌∷◌,
}
use plug2proxy.HashMap.{contains}
use plug2proxy.MatchServer.Keys.{MatchPair, Uuids}
use plug2proxy.MatchServer.Accept.{
  InMatchServer, active_out_id_set, accept_by_key, accept_by_message, Event, accepted, released,
  accept_event, Run, rest, by_key, by_message, gone,
}
use plug2proxy.MatchServer.Accept.Active.{
  IsActive, Accepts, accept_by_key-Accepts, accept_by_message-Accepts, out_gone_keeps,
}

-- The next event of this OUT, if there is one, is its release.
abbrev pub ReleasedFirst : MatchPair → ℕ → List Event → Type 0
ReleasedFirst pair id [] = Unit
ReleasedFirst pair id (accepted pair' id' ∷ events) =
    (¬ ((pair ≡ pair') × (id ≡ id'))) × ReleasedFirst pair id events
ReleasedFirst pair id (released pair' id' ∷ events) =
    ((pair ≡ pair') × (id ≡ id')) ⊎ ReleasedFirst pair id events

-- No OUT is accepted twice without a release between.
abbrev pub IsOnce : List Event → Type 0
IsOnce [] = Unit
IsOnce (accepted pair id ∷ events) = ReleasedFirst pair id events × IsOnce events
IsOnce (released pair id ∷ events) = IsOnce events

Accepts-ReleasedFirst :
    (pair pair' : MatchPair) (id : ℕ) (self : InMatchServer) (r : InMatchServer × Option ℕ)
    (events : List Event)
    → Accepts pair' self r
    → IsActive pair id self
    → (IsActive pair id r.0 → ReleasedFirst pair id events)
    → ReleasedFirst pair id (accept_event pair' r.1 events)
Accepts-ReleasedFirst pair pair' id self (self', none) events kept active go =
    go (kept pair id active)
Accepts-ReleasedFirst pair pair' id self (self', some out_id) events (fresh, taken, kept) active
      go =
    (
      λ (p, e).
          let known : contains (active_out_id_set pair' self) out_id ≡ true =
            subst (λ i. contains (active_out_id_set pair' self) i ≡ true) e
              (subst (λ q. contains (active_out_id_set q self) id ≡ true) p active) in
          cc (sym known ∙ fresh),
      go (kept pair id active),
    )

Run-ReleasedFirst :
    {uuids : Uuids} {self : InMatchServer} {events : List Event}
    → Run uuids self events
    → (pair : MatchPair) (id : ℕ) → IsActive pair id self
    → ReleasedFirst pair id events
Run-ReleasedFirst (rest self) pair id active = tt
Run-ReleasedFirst {uuids = uuids} (by_key pair' out_keys self events run) pair id active =
    Accepts-ReleasedFirst pair pair' id self (accept_by_key uuids pair' out_keys self) events
      (accept_by_key-Accepts uuids pair' out_keys self) active (Run-ReleasedFirst run pair id)
Run-ReleasedFirst (by_message pair' out_id self events run) pair id active =
    Accepts-ReleasedFirst pair pair' id self (accept_by_message pair' out_id self) events
      (accept_by_message-Accepts pair' out_id self) active (Run-ReleasedFirst run pair id)
Run-ReleasedFirst (gone pair' out_id self self' events e run) pair id active =
    elim (out_gone_keeps pair pair' id out_id self self' e active) [
      | inl same ↦ inl same
      | inr still ↦ inr (Run-ReleasedFirst run pair id still)
    ]

Accepts-IsOnce :
    (pair : MatchPair) (self : InMatchServer) (r : InMatchServer × Option ℕ) (events : List Event)
    → Accepts pair self r
    → ((pair : MatchPair) (id : ℕ) → IsActive pair id r.0 → ReleasedFirst pair id events)
    → IsOnce events
    → IsOnce (accept_event pair r.1 events)
Accepts-IsOnce pair self (self', none) events kept first once = once
Accepts-IsOnce pair self (self', some out_id) events (fresh, taken, kept) first once =
    (first pair out_id taken, once)

-- In every run of any number of tasks of an IN, from any state: between two acceptances of the same OUT
-- for the same pair there is a release of it, which is `match_out` finding the OUT's key gone.
pub Run-IsOnce :
    (uuids : Uuids) (self : InMatchServer) (events : List Event)
    → Run uuids self events
    → IsOnce events
Run-IsOnce uuids _ _ (rest _) = tt
Run-IsOnce uuids _ _ (by_key pair out_keys self events' run) =
    Accepts-IsOnce pair self (accept_by_key uuids pair out_keys self) events'
      (accept_by_key-Accepts uuids pair out_keys self) (Run-ReleasedFirst run)
      (Run-IsOnce uuids (accept_by_key uuids pair out_keys self).0 events' run)
Run-IsOnce uuids _ _ (by_message pair out_id self events' run) =
    Accepts-IsOnce pair self (accept_by_message pair out_id self) events'
      (accept_by_message-Accepts pair out_id self) (Run-ReleasedFirst run)
      (Run-IsOnce uuids (accept_by_message pair out_id self).0 events' run)
Run-IsOnce uuids _ _ (gone pair out_id self self' events' e run) =
    Run-IsOnce uuids self' events' run
