-- ===== src/Tunnel/Bytes.antt =====
-- Big-endian bytes of the standard library: `to_be_bytes`, `octets`, `from_be_bytes`, and the
-- `read_u8` to `read_u128` of tokio, which are documented to read big-endian.
use native.Mathlib.Nat.{pow-suc}
use plug2proxy.Prelude.{
  ℕ, zero, suc, ◌+◌, ◌*◌, ◌/◌, ◌%◌, ◌^◌, ◌<◌, ◌≡◌, refl, List, [], ◌∷◌, ◌++◌, arith, length,
  length-append,
}

-- The lowest `n` bytes of a number, the highest of them first.
unfoldable pub to_be_bytes : ℕ → ℕ → List ℕ
to_be_bytes zero x = []
to_be_bytes (suc n) x = to_be_bytes n (x / 256) ++ (x % 256) ∷ []

unfoldable pub from_be : ℕ → List ℕ → ℕ
from_be high [] = high
from_be high (b ∷ bytes) = from_be (high * 256 + b) bytes

unfoldable pub from_be_bytes : List ℕ → ℕ
unfolding from_be
from_be_bytes = from_be 0

from_be-append :
    (high : ℕ) (xs : List ℕ) (b : ℕ) → from_be high (xs ++ b ∷ []) ≡ from_be high xs * 256 + b
unfolding from_be
from_be-append high [] b = refl
from_be-append high (x ∷ xs) b = from_be-append (high * 256 + x) xs b

pub length-to_be_bytes : (n x : ℕ) → length (to_be_bytes n x) ≡ n
unfolding to_be_bytes
length-to_be_bytes zero x = refl
length-to_be_bytes (suc n) x = omega (
  arith,
  length-append (to_be_bytes n (x / 256)) ((x % 256) ∷ []),
  length-to_be_bytes n (x / 256),
)

pub from_be_bytes-to_be_bytes : (n x : ℕ) → x < 256 ^ n → from_be_bytes (to_be_bytes n x) ≡ x
unfolding from_be_bytes to_be_bytes
from_be_bytes-to_be_bytes zero x h = omega arith
from_be_bytes-to_be_bytes (suc n) x h = omega (
  arith,
  from_be-append 0 (to_be_bytes n (x / 256)) (x % 256),
  from_be_bytes-to_be_bytes n (x / 256) (omega (arith, pow-suc 256 n)),
)
