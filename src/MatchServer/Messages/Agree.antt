-- ===== src/MatchServer/Messages/Agree.antt =====
-- The two sides of a match agree on it (src/lib/match_server/redis_match_server.rs).
use mathlib.Core.Option
use plug2proxy.Prelude.{
  ℕ, ℤ, ◌≡◌, refl, inl, inr, Bool, true, Option-cases, Option, some, List, length,
}
use plug2proxy.Net.{Text}
use plug2proxy.MatchServer.Crypt.{Aead, AeadLaws, create_cipher, decrypt, decrypted}
use plug2proxy.MatchServer.Crypt.RoundTrip.{decrypt-encrypt}
use plug2proxy.MatchServer.Messages.{
  Json, JsonLaws, HasOwnLabels, Received, received, seal, unseal, InAnnouncement, MatchOut,
  OutMatchServer, match_lock_key, MatchInStep, matched, answer, publish_answer, match_locked,
  match_in, stored_data, announce, match_out, resolve_priority, in_tunnel,
}

module _ (new_cipher : List ℕ → Aead) (cipher_laws : (key : List ℕ) → AeadLaws (new_cipher key))
    (key : Option (List ℕ)) where
  abbrev pub cipher : Option Aead
  cipher = create_cipher new_cipher key

  unseal-seal :
      {A : Type 0} (json : Json A) (IsOwn : A → Type 0) (laws : JsonLaws A json IsOwn)
      (nonce : List ℕ) (a : A) (bytes : List ℕ)
      → IsOwn a
      → length nonce ≡ 12
      → seal cipher json nonce a ≡ some bytes
      → unseal cipher json bytes ≡ received a
  unfolding seal unseal
  unseal-seal json IsOwn laws nonce a bytes own n h = elim (Option-cases (json.to_string a)) [
    | inl e ↦ cc (rw (e, seal) at h)
    | inr (text, e) ↦
        let opened : decrypt cipher bytes ≡ decrypted text =
          decrypt-encrypt new_cipher cipher_laws key nonce text bytes n (rw (e, seal) at h) in
        rw (opened, laws.from_to_string a text own e, unseal)
  ]

-- A match as both sides have it: the OUT returns the IN's id and data, and publishes on the match key an
-- answer of which the IN makes a tunnel with the OUT's id, labels and rules, and the same tunnel id.
abbrev pub IsMatch :
    {Rule InData OutData : Type 0}
    → OutMatchServer Rule OutData
    → ℕ
    → Text
    → InData
    → ℕ
    → MatchInStep InData
    → (List ℕ → Received (MatchOut Rule OutData))
    → Type 0
IsMatch {Rule = Rule} {OutData = OutData} self in_id match_key in_data tunnel_id step receive =
    (payload : List ℕ) × (m : MatchOut Rule OutData) × (step
      ≡ matched (record { id = in_id; tunnel_id = tunnel_id; in_data = in_data }) match_key payload)
    × (receive payload ≡ received m)
    × (m.out_data ≡ self.out_data)
    × (m.routing_rules ≡ self.out_routing_rules)
    × (m.routing_priority ≡ self.out_routing_priority)
    × ((config_priority : Option ℤ) (priority_default : ℤ)
        → in_tunnel config_priority priority_default m ≡ record {
          id = tunnel_id;
          out_id = self.id;
          labels = self.labels;
          priority =
              Option.get_or config_priority (Option.get_or self.out_priority priority_default);
        })

module _ (new_cipher : List ℕ → Aead) (cipher_laws : (key : List ℕ) → AeadLaws (new_cipher key))
    (key : Option (List ℕ)) {Rule InData OutData : Type 0} (announcement_json : Json InAnnouncement)
    (in_json : Json InData) (out_json : Json (MatchOut Rule OutData))
    (announcement_laws : JsonLaws InAnnouncement announcement_json (λ a. Unit))
    (in_laws : JsonLaws InData in_json (λ a. Unit))
    (out_laws : JsonLaws (MatchOut Rule OutData) out_json (λ m. HasOwnLabels m.tunnel_labels)) where
  -- An OUT that gets an IN's announcement and the lock of its match key, with the IN's data under the match
  -- key, matches: it returns the IN's id and data, and the answer that it publishes on the match key gives
  -- the IN a tunnel of the same id, with the OUT's id and labels, the priority of the IN's configuration, else
  -- the OUT's, else the default, and the OUT's rules and data. Conditions: both have the same key,
  -- no custom label of the OUT has the name of a built-in one, the nonces have 12 bytes, and the three values can be written as JSON and encrypted.
  pub match_in-match_out :
      (self : OutMatchServer Rule OutData) (in_nonce data_nonce out_nonce : List ℕ)
      (in_id tunnel_id : ℕ) (match_key : Text) (in_data : InData) (lock : Text → Bool)
      (get : Text → List ℕ) (announcement payload : List ℕ)
      → HasOwnLabels self.labels
      → length in_nonce ≡ 12
      → length data_nonce ≡ 12
      → length out_nonce ≡ 12
      → announce
          (cipher new_cipher cipher_laws key)
          announcement_json
          in_json
          out_json
          in_nonce
          in_id
          match_key
        ≡ some announcement
      → stored_data
          (cipher new_cipher cipher_laws key)
          announcement_json
          in_json
          out_json
          data_nonce
          in_data
        ≡ some (get match_key)
      → lock (match_lock_key match_key) ≡ true
      → seal (cipher new_cipher cipher_laws key) out_json out_nonce (
          answer
            (cipher new_cipher cipher_laws key)
            announcement_json
            in_json
            out_json
            self
            tunnel_id)
        ≡ some payload
      → IsMatch self in_id match_key in_data tunnel_id
          (match_in
            (cipher new_cipher cipher_laws key)
            announcement_json
            in_json
            out_json
            self
            out_nonce
            tunnel_id
            lock
            get
            announcement)
          (match_out (cipher new_cipher cipher_laws key) announcement_json in_json out_json)
  unfolding announce stored_data match_out in_tunnel resolve_priority match_in match_locked
      publish_answer
  match_in-match_out self in_nonce data_nonce out_nonce in_id tunnel_id match_key in_data lock get
        announcement payload own n1 n2 n3 a s l p =
      let ciph : Option Aead = cipher new_cipher cipher_laws key in
      let m : MatchOut Rule OutData =
        answer ciph announcement_json in_json out_json self tunnel_id in
      let e1 : unseal ciph announcement_json announcement
          ≡ received (record { id = in_id; match_key = match_key }) =
        unseal-seal new_cipher cipher_laws key announcement_json (λ a. Unit) announcement_laws
          in_nonce (record { id = in_id; match_key = match_key }) announcement tt n1 a in
      let e2 : unseal ciph in_json (get match_key) ≡ received in_data =
        unseal-seal new_cipher cipher_laws key in_json (λ a. Unit) in_laws data_nonce in_data
          (get match_key) tt n2 s in
      (
        payload,
        m,
        rw (e1, l, match_locked, e2, publish_answer, p, match_in),
        unseal-seal new_cipher cipher_laws key out_json (λ m. HasOwnLabels m.tunnel_labels) out_laws
            out_nonce m payload own n3 p,
        refl,
        refl,
        refl,
        λ config_priority priority_default. refl,
      )
