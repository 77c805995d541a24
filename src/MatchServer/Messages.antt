-- ===== src/MatchServer/Messages.antt =====
-- src/lib/match_server/redis_match_server.rs: the messages by which an IN and an OUT match, and
-- src/lib/tunnel/http2: the tunnel that an IN's provider makes of a match. The identifiers and nonces are
-- random in the program and arguments here.
pub mod Agree
mod Examples
use mathlib.Core.Option
use plug2proxy.Prelude.{
  ℕ, ℤ, ◌≡◌, Bool, true, false, Option, none, some, List, [], ◌∷◌, ◌++◌, if◌then◌else◌, ◌==◌, ◌||◌,
  list_eq, nat_eq,
}
use plug2proxy.Net.{Text}
use plug2proxy.Route.Label.{Label, built_in, custom}
use plug2proxy.Manager.{InTunnel}
use plug2proxy.MatchServer.Keys.{codes}
use plug2proxy.MatchServer.Crypt.{
  Aead, encrypt, decrypt, decrypted, decryption_failed, decryption_panicked,
}

-- `serde_json`: `to_string`, which may fail, and `from_slice`, for values of a type.
pub record Json (A : Type 0) : Type 0 where
  pub to_string : A → Option (List ℕ)
  pub from_slice : List ℕ → Option A

-- As documented: what was written is read back, for values whose text is that of no other value.
pub record JsonLaws (A : Type 0) (json : Json A) (IsOwn : A → Type 0) : Type 0 where
  pub from_to_string :
      (a : A) (text : List ℕ)
      → IsOwn a
      → json.to_string a ≡ some text
      → json.from_slice text ≡ some a

-- A label is written as its text alone, and the text of a built-in one is read as that.
unfoldable pub is_built_in_name : Text → Bool
is_built_in_name text = text == codes "DIRECT" || text == codes "PROXY" || text == codes "ANY"

-- No custom label has the name of a built-in one.
abbrev pub HasOwnLabels : List Label → Type 0
HasOwnLabels [] = Unit
HasOwnLabels (built_in label ∷ labels) = HasOwnLabels labels
HasOwnLabels (custom text ∷ labels) = (is_built_in_name text ≡ false) × HasOwnLabels labels

-- A value of a message: the value, an error, or a panic.
pub data Received (A : Type 0) : Type 0 where
  received : A → Received A
  receive_failed : Received A
  receive_panicked : Received A

module _ {A : Type 0} (cipher : Option Aead) (json : Json A) where
  -- `encrypt(&cipher, serde_json::to_string(..)?.as_bytes())`; `none` is an error or a panic.
  unfoldable pub seal : List ℕ → A → Option (List ℕ)
  seal nonce a = elim (json.to_string a) [ none ↦ none | some text ↦ encrypt cipher nonce text ]

  -- `serde_json::from_slice(&decrypt(..)?)?`.
  abbrev parse : Option A → Received A
  parse none = receive_failed
  parse (some a) = received a

  unfoldable pub unseal : List ℕ → Received A
  unseal bytes = elim (decrypt cipher bytes) [
    | decrypted text ↦ parse (json.from_slice text)
    | decryption_failed ↦ receive_failed
    | decryption_panicked ↦ receive_panicked
  ]

pub record InAnnouncement : Type 0 where
  pub id : ℕ
  pub match_key : Text

-- `MatchOut` and `MatchIn`, with the data of the pair.
pub record MatchOut (Rule : Type 0) (OutData : Type 0) : Type 0 where
  pub id : ℕ
  pub tunnel_id : ℕ
  pub tunnel_labels : List Label
  pub tunnel_priority : Option ℤ
  pub routing_priority : ℤ
  pub routing_rules : List Rule
  pub out_data : OutData

pub record MatchIn (InData : Type 0) : Type 0 where
  pub id : ℕ
  pub tunnel_id : ℕ
  pub in_data : InData

-- `RedisOutMatchServer`, and what `match_in` is called with.
pub record OutMatchServer (Rule : Type 0) (OutData : Type 0) : Type 0 where
  pub id : ℕ
  pub labels : List Label
  pub out_data : OutData
  pub out_priority : Option ℤ
  pub out_routing_rules : List Rule
  pub out_routing_priority : ℤ

abbrev pub match_lock_key : Text → Text
match_lock_key match_key = match_key ++ codes ":lock"

-- How `match_in` goes on after an announcement: it has published an answer on a channel and returns; it waits
-- for the next; it fails; or it panics.
pub data MatchInStep (InData : Type 0) : Type 0 where
  matched : MatchIn InData → Text → List ℕ → MatchInStep InData
  missed : MatchInStep InData
  match_failed : MatchInStep InData
  match_panicked : MatchInStep InData

module _ {Rule InData OutData : Type 0} (cipher : Option Aead)
    (announcement_json : Json InAnnouncement) (in_json : Json InData)
    (out_json : Json (MatchOut Rule OutData)) where
  -- What an OUT answers.
  abbrev pub answer : OutMatchServer Rule OutData → ℕ → MatchOut Rule OutData
  answer self tunnel_id = record {
    id = self.id;
    tunnel_id = tunnel_id;
    tunnel_labels = self.labels;
    tunnel_priority = self.out_priority;
    routing_priority = self.out_routing_priority;
    routing_rules = self.out_routing_rules;
    out_data = self.out_data;
  }

  -- `match_in` with the IN's data in hand.
  unfoldable pub publish_answer :
      OutMatchServer Rule OutData → List ℕ → ℕ → InAnnouncement → InData → MatchInStep InData
  publish_answer self nonce tunnel_id announcement in_data =
      elim (seal cipher out_json nonce (answer self tunnel_id)) [
        | none ↦ match_failed
        | some payload ↦
            matched (record { id = announcement.id; tunnel_id = tunnel_id; in_data = in_data })
              announcement.match_key payload
      ]

  -- `match_in` with the lock in hand.
  unfoldable pub match_locked :
      OutMatchServer Rule OutData → List ℕ → ℕ → InAnnouncement → List ℕ → MatchInStep InData
  match_locked self nonce tunnel_id announcement stored = elim (unseal cipher in_json stored) [
    | received in_data ↦ publish_answer self nonce tunnel_id announcement in_data
    | receive_failed ↦ match_failed
    | receive_panicked ↦ match_panicked
  ]

  -- One turn of `match_in`'s loop: `lock` is whether Redis set the key, which was not there, and `get` is
  -- the value of a key.
  unfoldable pub match_in :
      OutMatchServer Rule OutData
      → List ℕ
      → ℕ
      → (Text → Bool)
      → (Text → List ℕ)
      → List ℕ
      → MatchInStep InData
  match_in self nonce tunnel_id lock get payload = elim (unseal cipher announcement_json payload) [
    | received announcement ↦
        if lock (match_lock_key announcement.match_key)
        then match_locked self nonce tunnel_id announcement (get announcement.match_key)
        else missed
    | receive_failed ↦ match_failed
    | receive_panicked ↦ match_panicked
  ]

  -- What `match_out` puts under the match key, publishes on the OUT's channel, and makes of the answer.
  unfoldable pub stored_data : List ℕ → InData → Option (List ℕ)
  stored_data nonce in_data = seal cipher in_json nonce in_data

  unfoldable pub announce : List ℕ → ℕ → Text → Option (List ℕ)
  announce nonce id match_key =
      seal cipher announcement_json nonce (record { id = id; match_key = match_key })

  unfoldable pub match_out : List ℕ → Received (MatchOut Rule OutData)
  match_out payload = unseal cipher out_json payload

-- `priority` of a provider's `accept`.
unfoldable pub resolve_priority : Option ℤ → ℤ → Option ℤ → ℤ
resolve_priority config_priority priority_default tunnel_priority =
    Option.get_or config_priority (Option.get_or tunnel_priority priority_default)

-- The tunnel that a provider's `accept` makes of a match.
unfoldable pub in_tunnel : {Rule OutData : Type 0} → Option ℤ → ℤ → MatchOut Rule OutData → InTunnel
in_tunnel config_priority priority_default match_ = record {
  id = match_.tunnel_id;
  out_id = match_.id;
  labels = match_.tunnel_labels;
  priority = resolve_priority config_priority priority_default match_.tunnel_priority;
}
