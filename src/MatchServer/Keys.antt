-- ===== src/MatchServer/Keys.antt =====
-- The three `MatchPair`s (src/lib/tunnel/http2/http2_tunnel_provider.rs, plug_http2_tunnel_provider.rs and
-- src/lib/tunnel/quic/match_pair.rs): the names of their keys and channels in Redis.
pub mod Own
mod Examples
use Prim.Native.Char.{code}
use Prim.Native.String.{String}
use plug2proxy.Prelude.{
  ℕ, ◌≡◌, ◌≢◌, ◌↔◌, Bool, true, Option, none, some, List, [], ◌∷◌, ◌++◌, if◌then◌else◌, nat_beq,
  All,
}
use plug2proxy.Net.{Text}

-- The bytes of an ASCII literal.
abbrev pub codes : String → Text
codes String.[] = []
codes (String.◌∷◌ c s) = code c ∷ codes s

pub data MatchPair : Type 0 where
  http2 plug_http2 quic : MatchPair

unfoldable pub get_match_name : MatchPair → Text
get_match_name http2 = codes "http2"
get_match_name plug_http2 = codes "plug-http2"
get_match_name quic = codes "quic"

-- What stands before the id in a key.
unfoldable pub out_key_prefix : MatchPair → Text
out_key_prefix http2 = codes "http2:out:"
out_key_prefix plug_http2 = codes "plug-http2:out:"
out_key_prefix quic = codes "quic:out:"

unfoldable pub in_channel_prefix : MatchPair → Text
in_channel_prefix http2 = codes "http2:in:out:"
in_channel_prefix plug_http2 = codes "plug-http2:in:out:"
in_channel_prefix quic = codes "quic:in:out:"

unfoldable pub get_redis_out_pattern : MatchPair → Text
get_redis_out_pattern pair = out_key_prefix pair ++ b'*' ∷ []

-- `split(":")`, of which the last is always there.
abbrev pub prepend : ℕ → List Text → List Text
prepend c [] = (c ∷ []) ∷ []
prepend c (part ∷ parts) = (c ∷ part) ∷ parts

unfoldable pub split_colon : Text → List Text
split_colon [] = [] ∷ []
split_colon (c ∷ text) =
    let parts = split_colon text in if nat_beq c b':' then [] ∷ parts else prepend c parts

unfoldable pub last : List Text → Option Text
last [] = none
last (part ∷ []) = some part
last (part ∷ next ∷ parts) = last (next ∷ parts)

-- `uuid::Uuid`: `Display`, and `parse_str`.
pub record Uuids : Type 0 where
  pub to_text : ℕ → Text
  pub parse_str : Text → Option ℕ

-- As documented: hexadecimal digits and hyphens, which are read back.
pub record UuidLaws (uuids : Uuids) : Type 0 where
  pub no_colon : (id : ℕ) → All (λ c. c ≢ b':') (uuids.to_text id)
  pub parse_to_text : (id : ℕ) → uuids.parse_str (uuids.to_text id) ≡ some id

module _ (uuids : Uuids) where
  unfoldable pub get_redis_out_key : MatchPair → ℕ → Text
  get_redis_out_key pair out_id = out_key_prefix pair ++ uuids.to_text out_id

  unfoldable pub get_redis_in_announcement_channel_name : MatchPair → ℕ → Text
  get_redis_in_announcement_channel_name pair out_id =
      in_channel_prefix pair ++ uuids.to_text out_id

  -- `none` is an id that does not parse. The code is the same for each pair.
  unfoldable pub get_out_id_from_redis_out_key : Text → Option ℕ
  get_out_id_from_redis_out_key out_key = elim (last (split_colon out_key)) [
    | none ↦ none
    | some part ↦ uuids.parse_str part
  ]

-- Redis's patterns: a `*` at the end stands for any text, and letters, digits, hyphens and colons for themselves.
pub record Glob : Type 0 where
  pub glob : Text → Text → Bool
  pub glob_prefix :
      (pair : MatchPair) (key : Text)
      → (glob (get_redis_out_pattern pair) key ≡ true)
        ↔ ((rest : Text) × (key ≡ out_key_prefix pair ++ rest))
