-- ===== src/GeoLite2.antt =====
-- src/lib/route/geolite2.rs: the database of countries, its file and its updates.
pub mod Updates
mod Examples
use mathlib.Core.Option
use plug2proxy.Prelude.{ℕ, ◌+◌, ◌-◌, ◌≡◌, Bool, Option, none, some, List, [], ◌∷◌, ◌++◌}
use plug2proxy.Net.{Text, IpAddr}

-- `geoip2::Country`, the fields that are used.
pub record Country : Type 0 where
  pub iso_code : Option Text
  pub continent_code : Option Text

-- `maxminddb`: a reader of the bytes of a database, and `lookup` in it; `none` is an error.
pub record MaxMindDb : Type 1 where
  pub Reader : Type 0
  pub from_source : List ℕ → Option Reader
  pub lookup : Reader → IpAddr → Option Country

-- What `tokio::fs::write` does: it has written all, or it fails and leaves a file that it may have emptied or
-- written in part, or no file.
pub data Write : Type 0 where
  written : Write
  write_failed : Option (List ℕ) → Write

-- What one turn downloads, and how the file is written.
abbrev pub Turn : Type 0
Turn = Option (List ℕ) × Write

abbrev pub codes_of : Option Text → List Text
codes_of none = []
codes_of (some code) = code ∷ []

module _ (maxmind : MaxMindDb) where
  -- The reader that lookups use, and the cached file, which outlives the program.
  pub record GeoLite2 : Type 0 where
    pub reader : Option maxmind.Reader
    pub cache : Option (List ℕ)

  -- `new` on a cached file; `none` is the panic on one that is no database.
  unfoldable pub new : Option (List ℕ) → Option GeoLite2
  new none = some (record { reader = none; cache = none })
  new (some bytes) = elim (maxmind.from_source bytes) [
    | none ↦ none
    | some reader ↦ some (record { reader = some reader; cache = some bytes })
  ]

  -- The country's code, then the continent's.
  unfoldable pub lookup : GeoLite2 → IpAddr → Option (List Text)
  lookup self ip = elim self.reader [
    | none ↦ none
    | some reader ↦ elim (maxmind.lookup reader ip) [
      | none ↦ none
      | some record_ ↦ some (codes_of record_.iso_code ++ codes_of record_.continent_code)
    ]
  ]

  -- One turn of `schedule_reader_update`, and whether it has `updated`: `download` is what is got
  -- from the server, `none` an error of it.
  unfoldable pub update : GeoLite2 → Option (List ℕ) → Write → GeoLite2 × Bool
  update self none write = (self, Bool.false)
  update self (some bytes) (write_failed left) = (record self { cache = left }, Bool.false)
  update self (some bytes) written = elim (maxmind.from_source bytes) [
    | none ↦ (record self { cache = some bytes }, Bool.false)
    | some reader ↦ (record { reader = some reader; cache = some bytes }, Bool.true)
  ]

  -- Turn after turn.
  unfoldable pub updates : GeoLite2 → List Turn → GeoLite2
  updates self [] = self
  updates self ((download, write) ∷ turns) = updates (update self download write).0 turns

-- The wait before the first turn, and after one, in seconds: `age` is that of the file, where there is one.
unfoldable pub first_delay : ℕ → Option ℕ → ℕ
first_delay update_interval none = 0
first_delay update_interval (some age) = update_interval - age

unfoldable pub next_delay : ℕ → Bool → ℕ
next_delay update_interval Bool.true = update_interval
next_delay update_interval Bool.false = 30
