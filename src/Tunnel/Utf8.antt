-- ===== src/Tunnel/Utf8.antt =====
-- The validity check of `String::from_utf8`, as the Unicode standard tabulates well-formed UTF-8.
use plug2proxy.Prelude.{
  ℕ, zero, suc, Bool, true, false, ◌&&◌, ◌||◌, List, [], ◌∷◌, if◌then◌else◌, leb, ltb, nat_beq,
}

-- How many bytes follow a first byte.
abbrev following : ℕ → ℕ
following b = if ltb b 0x80 then 0 else if ltb b 0xE0 then 1 else if ltb b 0xF0 then 2 else 3

abbrev is_first : ℕ → Bool
is_first b = ltb b 0x80 || leb 0xC2 b && leb b 0xF4

-- The range of the second byte.
abbrev second_low : ℕ → ℕ
second_low b = if nat_beq b 0xE0 then 0xA0 else if nat_beq b 0xF0 then 0x90 else 0x80

abbrev second_high : ℕ → ℕ
second_high b = if nat_beq b 0xED then 0x9F else if nat_beq b 0xF4 then 0x8F else 0xBF

-- `needed` bytes are to follow, the next of them between `low` and `high`.
unfoldable pub utf8_from : ℕ → ℕ → ℕ → List ℕ → Bool
utf8_from zero low high [] = true
utf8_from (suc needed) low high [] = false
utf8_from zero low high (b ∷ bytes) =
    is_first b && utf8_from (following b) (second_low b) (second_high b) bytes
utf8_from (suc needed) low high (b ∷ bytes) =
    leb low b && leb b high && utf8_from needed 0x80 0xBF bytes

unfoldable pub is_utf8 : List ℕ → Bool
unfolding utf8_from
is_utf8 = utf8_from 0 0 0
