-- ===== src/Route/Rule/Domain.antt =====
-- The slices and suffix tests of texts that src/lib/route/rule.rs uses on domains.
use plug2proxy.Prelude.{
  ℕ, zero, suc, ◌-◌, ◌==◌, nat_eq, list_eq, Bool, false, [], ◌∷◌, if◌then◌else◌, length, leb,
}
use plug2proxy.Net.{Text}

-- `&s[..n]` and `&s[n..]`, with `n` at most the length.
unfoldable pub take : ℕ → Text → Text
take zero s = []
take (suc n) [] = []
take (suc n) (c ∷ s) = c ∷ take n s

unfoldable pub drop : ℕ → Text → Text
drop zero s = s
drop (suc n) [] = []
drop (suc n) (c ∷ s) = drop n s

-- `str::ends_with`: the last bytes are compared.
unfoldable pub ends_with : Text → Text → Bool
unfolding drop
ends_with s suffix =
    if leb (length suffix) (length s) then drop (length s - length suffix) s == suffix else false

abbrev pub dot : Text
dot = b'.' ∷ []
