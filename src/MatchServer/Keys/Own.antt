-- ===== src/MatchServer/Keys/Own.antt =====
-- The keys of an OUT are those of its own pair, and give its id back.
use plug2proxy.Prelude.{
  ℕ, ◌≡◌, ◌≢◌, refl, sym, ap, ◌↔◌, true, Option, some, [], ◌∷◌, ◌++◌, nat_beq_iff, All, get_elem?,
  arith, some-eq-some,
}
use plug2proxy.Net.{Text}
use plug2proxy.MatchServer.Keys.{
  MatchPair, http2, plug_http2, quic, get_match_name, out_key_prefix, in_channel_prefix,
  get_redis_out_pattern, split_colon, last, Uuids, UuidLaws, get_redis_out_key,
  get_redis_in_announcement_channel_name, get_out_id_from_redis_out_key, Glob,
}

split_colon_plain : (text : Text) → All (λ c. c ≢ b':') text → split_colon text ≡ text ∷ []
unfolding split_colon
split_colon_plain [] h = refl
split_colon_plain (c ∷ text) h =
    rw (split_colon_plain text h.1) (ground (arith, nat_beq_iff c b':', h.0))

module _ (uuids : Uuids) (laws : UuidLaws uuids) where
  out_id_read :
      (pair : MatchPair) (id : ℕ)
      → get_out_id_from_redis_out_key uuids (get_redis_out_key uuids pair id) ≡ some id
  unfolding get_out_id_from_redis_out_key get_redis_out_key out_key_prefix split_colon last
  out_id_read http2 id =
      rw (split_colon_plain (uuids.to_text id) (laws.no_colon id)) (laws.parse_to_text id)
  out_id_read plug_http2 id =
      rw (split_colon_plain (uuids.to_text id) (laws.no_colon id)) (laws.parse_to_text id)
  out_id_read quic id =
      rw (split_colon_plain (uuids.to_text id) (laws.no_colon id)) (laws.parse_to_text id)

same_prefix :
    (pair pair' : MatchPair) (rest rest' : Text)
    → out_key_prefix pair ++ rest ≡ out_key_prefix pair' ++ rest'
    → pair ≡ pair'
unfolding out_key_prefix
same_prefix http2 http2 rest rest' e = refl
same_prefix http2 plug_http2 rest rest' e =
    ground (arith, some-eq-some (ap (λ (t : Text). get_elem? t 0) e))
same_prefix http2 quic rest rest' e =
    ground (arith, some-eq-some (ap (λ (t : Text). get_elem? t 0) e))
same_prefix plug_http2 http2 rest rest' e =
    ground (arith, some-eq-some (ap (λ (t : Text). get_elem? t 0) e))
same_prefix plug_http2 plug_http2 rest rest' e = refl
same_prefix plug_http2 quic rest rest' e =
    ground (arith, some-eq-some (ap (λ (t : Text). get_elem? t 0) e))
same_prefix quic http2 rest rest' e =
    ground (arith, some-eq-some (ap (λ (t : Text). get_elem? t 0) e))
same_prefix quic plug_http2 rest rest' e =
    ground (arith, some-eq-some (ap (λ (t : Text). get_elem? t 0) e))
same_prefix quic quic rest rest' e = refl

abbrev char_at : ℕ → Text → Option ℕ
char_at n text = get_elem? text n

channel_apart :
    (pair pair' : MatchPair) (rest rest' : Text)
    → in_channel_prefix pair' ++ rest' ≢ out_key_prefix pair ++ rest
unfolding out_key_prefix in_channel_prefix
channel_apart http2 http2 rest rest' e = ground (arith, some-eq-some (ap (char_at 6) e))
channel_apart http2 plug_http2 rest rest' e = ground (arith, some-eq-some (ap (char_at 0) e))
channel_apart http2 quic rest rest' e = ground (arith, some-eq-some (ap (char_at 0) e))
channel_apart plug_http2 http2 rest rest' e = ground (arith, some-eq-some (ap (char_at 0) e))
channel_apart plug_http2 plug_http2 rest rest' e = ground (arith, some-eq-some (ap (char_at 11) e))
channel_apart plug_http2 quic rest rest' e = ground (arith, some-eq-some (ap (char_at 0) e))
channel_apart quic http2 rest rest' e = ground (arith, some-eq-some (ap (char_at 0) e))
channel_apart quic plug_http2 rest rest' e = ground (arith, some-eq-some (ap (char_at 0) e))
channel_apart quic quic rest rest' e = ground (arith, some-eq-some (ap (char_at 5) e))

-- A pair's pattern fits the key of an OUT exactly where the key is of the same pair, it fits no channel
-- on which INs are announced, and the id that is read from an OUT's key is the OUT's.
pub get_redis_out_key-IsFound :
    (uuids : Uuids) (laws : UuidLaws uuids) (redis : Glob) (pair pair' : MatchPair) (id : ℕ)
    → ((redis.glob (get_redis_out_pattern pair) (get_redis_out_key uuids pair' id) ≡ true)
        ↔ (pair ≡ pair'))
      × (redis.glob
            (get_redis_out_pattern pair)
            (get_redis_in_announcement_channel_name uuids pair' id)
          ≢ true)
      × (get_out_id_from_redis_out_key uuids (get_redis_out_key uuids pair' id) ≡ some id)
unfolding get_redis_out_key get_redis_in_announcement_channel_name
get_redis_out_key-IsFound uuids laws redis pair pair' id = (
  (
    λ h.
        let (rest, e) = (redis.glob_prefix pair (get_redis_out_key uuids pair' id)).0 h in
        sym (same_prefix pair' pair (uuids.to_text id) rest e),
    λ e.
        (redis.glob_prefix pair (get_redis_out_key uuids pair' id)).1
          (uuids.to_text id, ap (λ p. out_key_prefix p ++ uuids.to_text id) (sym e)),
  ),
  λ h.
      let (rest, e) =
        (redis.glob_prefix pair (get_redis_in_announcement_channel_name uuids pair' id)).0 h in
      channel_apart pair pair' rest (uuids.to_text id) e,
  out_id_read uuids laws pair' id,
)

pub get_match_name_injective :
    (pair pair' : MatchPair) → get_match_name pair ≡ get_match_name pair' → pair ≡ pair'
unfolding get_match_name
get_match_name_injective http2 http2 e = refl
get_match_name_injective http2 plug_http2 e = ground (arith, some-eq-some (ap (char_at 0) e))
get_match_name_injective http2 quic e = ground (arith, some-eq-some (ap (char_at 0) e))
get_match_name_injective plug_http2 http2 e = ground (arith, some-eq-some (ap (char_at 0) e))
get_match_name_injective plug_http2 plug_http2 e = refl
get_match_name_injective plug_http2 quic e = ground (arith, some-eq-some (ap (char_at 0) e))
get_match_name_injective quic http2 e = ground (arith, some-eq-some (ap (char_at 0) e))
get_match_name_injective quic plug_http2 e = ground (arith, some-eq-some (ap (char_at 0) e))
get_match_name_injective quic quic e = refl
