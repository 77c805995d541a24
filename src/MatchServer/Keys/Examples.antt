-- ===== src/MatchServer/Keys/Examples.antt =====
-- The keys of an OUT, with ids of one hexadecimal digit in unary.
use plug2proxy.Prelude.{
  ℕ, zero, suc, ◌≡◌, ◌≢◌, refl, ap, ◌∙◌, subst, ◌↔◌, Bool, true, some, [], ◌∷◌, ◌++◌, length, take,
  drop, take-append, take-drop, All, ◌==◌, ==_refl, ==_eq, list_eq, nat_eq, arith, sym,
}
use plug2proxy.Net.{Text}
use plug2proxy.MatchServer.Keys.{
  http2, plug_http2, out_key_prefix, get_redis_out_pattern, Uuids, UuidLaws, get_redis_out_key,
  get_redis_in_announcement_channel_name, get_out_id_from_redis_out_key, Glob,
}
use plug2proxy.MatchServer.Keys.Own.{get_redis_out_key-IsFound}

unfoldable ones : ℕ → Text
ones zero = []
ones (suc n) = b'1' ∷ ones n

ones_plain : (n : ℕ) → All (λ c. c ≢ b':') (ones n)
unfolding ones
ones_plain zero = tt
ones_plain (suc n) = (omega arith, ones_plain n)

length-ones : (n : ℕ) → length (ones n) ≡ n
unfolding ones
length-ones zero = refl
length-ones (suc n) = ap suc (length-ones n)

abbrev uuids : Uuids
uuids = record { to_text = ones; parse_str = λ text. some (length text) }

laws : UuidLaws uuids
laws = record { no_colon = ones_plain; parse_to_text = λ id. ap some (length-ones id) }

unfoldable drop_last : Text → Text
drop_last [] = []
drop_last (c ∷ []) = []
drop_last (c ∷ d ∷ text) = c ∷ drop_last (d ∷ text)

drop_last-snoc : (text : Text) (star : ℕ) → drop_last (text ++ star ∷ []) ≡ text
unfolding drop_last
drop_last-snoc [] star = refl
drop_last-snoc (c ∷ []) star = refl
drop_last-snoc (c ∷ d ∷ text) star = ap (λ z. c ∷ z) (drop_last-snoc (d ∷ text) star)

-- All of a pattern but its last character stands at the beginning.
abbrev starts : Text → Text → Bool
starts prefix key = take (length prefix) key == prefix

starts_iff :
    (prefix key : Text) → (starts prefix key ≡ true) ↔ ((rest : Text) × (key ≡ prefix ++ rest))
starts_iff prefix key = (
  λ h. (
    drop (length prefix) key,
    sym (take-drop (length prefix) key)
        ∙ ap (λ z. z ++ drop (length prefix) key) (==_eq (take (length prefix) key) prefix h),
  ),
  λ (rest, e).
      subst (λ k. starts prefix k ≡ true) (sym e)
        (subst (λ z. (z == prefix) ≡ true) (sym (take-append prefix rest)) (==_refl prefix)),
)

redis : Glob
unfolding get_redis_out_pattern
redis = record {
  glob = λ pattern_ key. starts (drop_last pattern_) key;
  glob_prefix = λ pair key.
      subst (λ z. (starts z key ≡ true) ↔ ((rest : Text) × (key ≡ out_key_prefix pair ++ rest)))
        (sym (drop_last-snoc (out_key_prefix pair) b'*')) (starts_iff (out_key_prefix pair) key);
}

get_redis_out_key-IsFound_example :
    ((redis.glob (get_redis_out_pattern http2) (get_redis_out_key uuids plug_http2 3) ≡ true)
      ↔ (http2 ≡ plug_http2))
    × (redis.glob
          (get_redis_out_pattern http2)
          (get_redis_in_announcement_channel_name uuids plug_http2 3)
        ≢ true)
    × (get_out_id_from_redis_out_key uuids (get_redis_out_key uuids plug_http2 3) ≡ some 3)
get_redis_out_key-IsFound_example = get_redis_out_key-IsFound uuids laws redis http2 plug_http2 3
