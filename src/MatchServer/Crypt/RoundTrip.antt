-- ===== src/MatchServer/Crypt/RoundTrip.antt =====
-- What is encrypted for Redis is decrypted (src/lib/match_server/redis_match_server.rs).
use plug2proxy.Prelude.{
  ℕ, ◌≡◌, sym, ap, ◌∙◌, subst, inl, inr, false, Option-cases, some-eq-some, Option, none, some,
  List, ◌++◌, if_false, length, length-append, take, drop, take-append, drop-append, ltb, arith,
}
use plug2proxy.MatchServer.Crypt.{
  Aead, AeadLaws, nonce_length, create_cipher, encrypt, decrypted, decryption_panicked, open_sealed,
  decrypt,
}

opened_sealed :
    (cipher : Aead) (laws : AeadLaws cipher) (nonce bytes sealed : List ℕ)
    → length nonce ≡ 12
    → cipher.encrypt nonce bytes ≡ some sealed
    → decrypt (some cipher) (nonce ++ sealed) ≡ decrypted bytes
unfolding decrypt open_sealed
opened_sealed cipher laws nonce bytes sealed n e =
    let stored = nonce ++ sealed in
    let long : ltb (length stored) nonce_length ≡ false =
      ground (arith, length-append nonce sealed) in
    if_false decryption_panicked
      (open_sealed cipher (take nonce_length stored) (drop nonce_length stored)) long
    ∙ ap (λ z. open_sealed cipher z (drop nonce_length stored))
        (subst (λ k. take k stored ≡ nonce) n (take-append nonce sealed))
    ∙ ap (λ z. open_sealed cipher nonce z)
        (subst (λ k. drop k stored ≡ sealed) n (drop-append nonce sealed))
    ∙ rw (laws.decrypt_encrypt nonce bytes sealed e, open_sealed)

-- What one side encrypts, with or without a key and with any nonce of 12 bytes, the other side with the same
-- key decrypts.
pub decrypt-encrypt :
    (new_cipher : List ℕ → Aead) (laws : (key : List ℕ) → AeadLaws (new_cipher key))
    (key : Option (List ℕ)) (nonce bytes stored : List ℕ)
    → length nonce ≡ 12
    → encrypt (create_cipher new_cipher key) nonce bytes ≡ some stored
    → decrypt (create_cipher new_cipher key) stored ≡ decrypted bytes
unfolding create_cipher encrypt decrypt
decrypt-encrypt new_cipher laws none nonce bytes stored n h = ap decrypted (sym (some-eq-some h))
decrypt-encrypt new_cipher laws (some key) nonce bytes stored n h =
    elim (Option-cases ((new_cipher key).encrypt nonce bytes)) [
      | inl e ↦ cc (rw (e, encrypt) at h)
      | inr (sealed, e) ↦
          subst (λ z. decrypt (some (new_cipher key)) z ≡ decrypted bytes)
            (some-eq-some (rw (e, encrypt) at h))
            (opened_sealed (new_cipher key) (laws key) nonce bytes sealed n e)
    ]
