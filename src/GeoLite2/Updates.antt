-- ===== src/GeoLite2/Updates.antt =====
-- What updates leave for lookups and for the next start (src/lib/route/geolite2.rs).
use plug2proxy.Prelude.{
  ℕ, ◌≡◌, refl, sym, ap, ◌∙◌, subst, inl, inr, ◌↔◌, Option-cases, Option, none, some, List, [], ◌∷◌,
}
use plug2proxy.GeoLite2.{MaxMindDb, written, write_failed, Turn, GeoLite2, new, update, updates}

module _ (maxmind : MaxMindDb) where
  -- What the last write of the file left: the bytes downloaded, or what a write that failed has left.
  abbrev pub last_written : Option (List ℕ) → List Turn → Option (List ℕ)
  last_written before [] = before
  last_written before ((some bytes, written) ∷ turns) = last_written (some bytes) turns
  last_written before ((some bytes, write_failed left) ∷ turns) = last_written left turns
  last_written before ((none, write) ∷ turns) = last_written before turns

  -- The reader of these bytes, or the one before where they are no database.
  abbrev pub reader_or : Option maxmind.Reader → List ℕ → Option maxmind.Reader
  reader_or before bytes = elim (maxmind.from_source bytes) [
    | none ↦ before
    | some reader ↦ some reader
  ]

  -- The last reader of bytes that were written whole and are a database.
  abbrev pub last_reader : Option maxmind.Reader → List Turn → Option maxmind.Reader
  last_reader before [] = before
  last_reader before ((some bytes, written) ∷ turns) = last_reader (reader_or before bytes) turns
  last_reader before ((some bytes, write_failed left) ∷ turns) = last_reader before turns
  last_reader before ((none, write) ∷ turns) = last_reader before turns

  update_written :
      (self : GeoLite2 maxmind) (bytes : List ℕ)
      → ((update maxmind self (some bytes) written).0.reader ≡ reader_or self.reader bytes)
        × ((update maxmind self (some bytes) written).0.cache ≡ some bytes)
  unfolding update
  update_written self bytes = elim (Option-cases (maxmind.from_source bytes)) [
    | inl e ↦ (rw (e, update, reader_or), rw (e, update))
    | inr (reader, e) ↦ (rw (e, update, reader_or), rw (e, update))
  ]

  updates_state :
      (self : GeoLite2 maxmind) (turns : List Turn)
      → ((updates maxmind self turns).reader ≡ last_reader self.reader turns)
        × ((updates maxmind self turns).cache ≡ last_written self.cache turns)
  unfolding updates update
  updates_state self [] = (refl, refl)
  updates_state self ((none, write) ∷ turns) = updates_state self turns
  updates_state self ((some bytes, write_failed left) ∷ turns) =
      updates_state (record self { cache = left }) turns
  updates_state self ((some bytes, written) ∷ turns) =
      let (reader, cache) = updates_state (update maxmind self (some bytes) written).0 turns in
      let (new_reader, new_cache) = update_written self bytes in
      (
        reader ∙ ap (λ before. last_reader before turns) new_reader,
        cache ∙ ap (λ before. last_written before turns) new_cache,
      )

  -- The file is there and is no database.
  abbrev pub IsBroken : Option (List ℕ) → Type 0
  IsBroken none = ⊥
  IsBroken (some bytes) = maxmind.from_source bytes ≡ none

  new-IsBroken : (cache : Option (List ℕ)) → (new maxmind cache ≡ none) ↔ IsBroken cache
  unfolding new
  new-IsBroken none = (λ e. cc, λ h. absurd h)
  new-IsBroken (some bytes) = elim (Option-cases (maxmind.from_source bytes)) [
    | inl e ↦ (λ h. e, λ h. rw (e, new))
    | inr (reader, e) ↦ (λ h. cc (rw (e, new) at h), λ h. cc)
  ]

  -- After any updates the reader in use is that of the last bytes that were written whole and are a database,
  -- or the one from before; but the next start panics exactly where what the last write left, which may
  -- have failed, is a file that is no database.
  pub new-updates :
      (self : GeoLite2 maxmind) (turns : List Turn)
      → ((updates maxmind self turns).reader ≡ last_reader self.reader turns)
        × ((new maxmind (updates maxmind self turns).cache ≡ none)
            ↔ IsBroken (last_written self.cache turns))
  new-updates self turns =
      let (reader, cache) = updates_state self turns in
      (
        reader,
        subst (λ c. (new maxmind c ≡ none) ↔ IsBroken (last_written self.cache turns)) (sym cache)
            (new-IsBroken (last_written self.cache turns)),
      )
