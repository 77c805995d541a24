-- ===== src/GeoLite2/Examples.antt =====
-- A good download, then a page that is no database, and a write that fails and leaves an empty file.
use plug2proxy.Prelude.{ℕ, ◌≡◌, ◌↔◌, Option, none, some, List, [], ◌∷◌}
use plug2proxy.GeoLite2.{MaxMindDb, written, write_failed, Turn, GeoLite2, new, updates}
use plug2proxy.GeoLite2.Updates.{last_written, last_reader, IsBroken, new-updates}

abbrev one_byte : List ℕ → Option ℕ
one_byte [] = none
one_byte (b ∷ []) = some b
one_byte (b ∷ c ∷ bytes) = none

abbrev maxmind : MaxMindDb
maxmind = record { Reader = ℕ; from_source = one_byte; lookup = λ reader ip. none }

abbrev empty : GeoLite2 maxmind
empty = record { reader = none; cache = none }

abbrev turns : List Turn
turns =
    (some (7 ∷ []), written)
    ∷ (none, written)
    ∷ (some (1 ∷ 2 ∷ []), written)
    ∷ (some (8 ∷ []), write_failed (some []))
    ∷ []

new-updates_example :
    ((updates maxmind empty turns).reader ≡ last_reader maxmind none turns)
    × ((new maxmind (updates maxmind empty turns).cache ≡ none)
        ↔ IsBroken maxmind (last_written maxmind none turns))
new-updates_example = new-updates maxmind empty turns
