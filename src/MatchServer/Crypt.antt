-- ===== src/MatchServer/Crypt.antt =====
-- src/lib/match_server/redis_match_server.rs: `encrypt` and `decrypt` of what is kept in Redis. The cipher is
-- the `aes_gcm` crate's.
pub mod RoundTrip
use plug2proxy.Prelude.{
  ℕ, ◌≡◌, Option, none, some, List, ◌++◌, if◌then◌else◌, length, take, drop, ltb,
}

-- `Aes256Gcm` with its key: `encrypt` and `decrypt`, each for a nonce.
pub record Aead : Type 0 where
  pub encrypt : List ℕ → List ℕ → Option (List ℕ)
  pub decrypt : List ℕ → List ℕ → Option (List ℕ)

-- As documented: what was encrypted is decrypted with the same nonce.
pub record AeadLaws (cipher : Aead) : Type 0 where
  pub decrypt_encrypt :
      (nonce bytes sealed : List ℕ)
      → cipher.encrypt nonce bytes ≡ some sealed
      → cipher.decrypt nonce sealed ≡ some bytes

-- A nonce is 96 bits.
abbrev pub nonce_length : ℕ
nonce_length = 12

-- `create_cipher`, of a key: `new_cipher` is the cipher with the key's SHA-256.
unfoldable pub create_cipher : (List ℕ → Aead) → Option (List ℕ) → Option Aead
create_cipher new_cipher none = none
create_cipher new_cipher (some key) = some (new_cipher key)

-- `nonce` is the random one; `none` is the panic of `unwrap`.
unfoldable pub encrypt : Option Aead → List ℕ → List ℕ → Option (List ℕ)
encrypt none nonce bytes = some bytes
encrypt (some cipher) nonce bytes = elim (cipher.encrypt nonce bytes) [
  | none ↦ none
  | some sealed ↦ some (nonce ++ sealed)
]

-- The bytes, the error of a wrong key, or the panic of `split_at`.
pub data Decrypted : Type 0 where
  decrypted : List ℕ → Decrypted
  decryption_failed : Decrypted
  decryption_panicked : Decrypted

unfoldable pub open_sealed : Aead → List ℕ → List ℕ → Decrypted
open_sealed cipher nonce sealed = elim (cipher.decrypt nonce sealed) [
  | none ↦ decryption_failed
  | some bytes ↦ decrypted bytes
]

unfoldable pub decrypt : Option Aead → List ℕ → Decrypted
decrypt none bytes = decrypted bytes
decrypt (some cipher) bytes =
    if ltb (length bytes) nonce_length
    then decryption_panicked
    else open_sealed cipher (take nonce_length bytes) (drop nonce_length bytes)
