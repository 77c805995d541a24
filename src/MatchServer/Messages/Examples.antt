-- ===== src/MatchServer/Messages/Examples.antt =====
-- A match of an OUT with a label, a rule and a priority, by a cipher that shifts the bytes.
use plug2proxy.Prelude.{
  ℕ, suc, ◌-◌, ℤ, pos, negsuc, ◌≡◌, refl, sym, ap, ◌∙◌, subst, true, Option, none, some, List, [],
  ◌∷◌, ◌++◌, map, some-eq-some, arith,
}
use plug2proxy.Net.{Text}
use plug2proxy.Route.Label.{Label, built_in, custom}
use plug2proxy.MatchServer.Crypt.{Aead, AeadLaws, create_cipher, encrypt}
use plug2proxy.MatchServer.Messages.{
  Json, JsonLaws, is_built_in_name, HasOwnLabels, seal, InAnnouncement, MatchOut, OutMatchServer,
  answer, match_in, stored_data, announce, match_out,
}
use plug2proxy.MatchServer.Messages.Agree.{cipher, IsMatch, match_in-match_out}

abbrev shift : List ℕ → Aead
shift key = record {
  encrypt = λ nonce bytes. some (map suc bytes);
  decrypt = λ nonce sealed. some (map (λ b. b - 1) sealed);
}

shifted_back : (bytes : List ℕ) → map (λ b. b - 1) (map suc bytes) ≡ bytes
shifted_back [] = refl
shifted_back (b ∷ bytes) = rw (shifted_back bytes) (ap (λ c. c ∷ bytes) (omega arith))

shift_laws : (key : List ℕ) → AeadLaws (shift key)
shift_laws key = record {
  decrypt_encrypt = λ nonce bytes sealed e.
      ap some (ap (map (λ b. b - 1)) (sym (some-eq-some e)) ∙ shifted_back bytes);
}

abbrev Out : Type 0
Out = MatchOut ℕ ℕ

abbrev read_announcement : List ℕ → Option InAnnouncement
read_announcement [] = none
read_announcement (id ∷ key) = some (record { id = id; match_key = key })

abbrev announcement_json : Json InAnnouncement
announcement_json = record {
  to_string = λ a. some (a.id ∷ a.match_key);
  from_slice = read_announcement;
}

announcement_laws : JsonLaws InAnnouncement announcement_json (λ a. Unit)
announcement_laws = record {
  from_to_string = λ a text own e. subst (λ t. read_announcement t ≡ some a) (some-eq-some e) refl;
}

abbrev in_json : Json (List ℕ)
in_json = record { to_string = λ bytes. some bytes; from_slice = λ bytes. some bytes }

in_laws : JsonLaws (List ℕ) in_json (λ a. Unit)
in_laws = record { from_to_string = λ a text own e. sym e }

-- Only what has one custom label, one rule and both priorities is written.
abbrev write : ℕ → ℕ → List Label → Option ℤ → ℤ → List ℕ → ℕ → Option (List ℕ)
write id tunnel_id (custom text ∷ []) (some (pos p)) (pos n) (rule ∷ []) out_data =
    some (id ∷ tunnel_id ∷ p ∷ n ∷ rule ∷ out_data ∷ text)
write id tunnel_id _ _ _ _ out_data = none

abbrev read : List ℕ → Option Out
read (id ∷ tunnel_id ∷ p ∷ n ∷ rule ∷ out_data ∷ text) = some (record {
  id = id;
  tunnel_id = tunnel_id;
  tunnel_labels = custom text ∷ [];
  tunnel_priority = some (pos p);
  routing_priority = pos n;
  routing_rules = rule ∷ [];
  out_data = out_data;
})
read _ = none

abbrev out_json : Json Out
out_json = record {
  to_string = λ m.
      write m.id m.tunnel_id m.tunnel_labels m.tunnel_priority m.routing_priority m.routing_rules
        m.out_data;
  from_slice = read;
}

read-write :
    (id tunnel_id : ℕ) (labels : List Label) (priority : Option ℤ) (routing_priority : ℤ)
    (rules : List ℕ) (out_data : ℕ) (text : List ℕ)
    → write id tunnel_id labels priority routing_priority rules out_data ≡ some text
    → read text
      ≡ some (record {
        id = id;
        tunnel_id = tunnel_id;
        tunnel_labels = labels;
        tunnel_priority = priority;
        routing_priority = routing_priority;
        routing_rules = rules;
        out_data = out_data;
      })
read-write id tunnel_id (custom t ∷ []) (some (pos p)) (pos n) (r ∷ []) out_data text e =
    ap read (sym (some-eq-some e))
read-write id tunnel_id (custom t ∷ []) (some (pos p)) (pos n) [] out_data text e = cc
read-write id tunnel_id (custom t ∷ []) (some (pos p)) (pos n) (r ∷ q ∷ rules) out_data text e = cc
read-write id tunnel_id (custom t ∷ []) (some (pos p)) (negsuc n) rules out_data text e = cc
read-write id tunnel_id (custom t ∷ []) (some (negsuc p)) n rules out_data text e = cc
read-write id tunnel_id (custom t ∷ []) none n rules out_data text e = cc
read-write id tunnel_id (custom t ∷ l ∷ labels) priority n rules out_data text e = cc
read-write id tunnel_id (built_in b ∷ labels) priority n rules out_data text e = cc
read-write id tunnel_id [] priority n rules out_data text e = cc

out_laws : JsonLaws Out out_json (λ m. HasOwnLabels m.tunnel_labels)
out_laws = record {
  from_to_string = λ m text own e.
      read-write m.id m.tunnel_id m.tunnel_labels m.tunnel_priority m.routing_priority
        m.routing_rules m.out_data text e;
}

abbrev self : OutMatchServer ℕ ℕ
self = record {
  id = 7;
  labels = custom (74 ∷ 80 ∷ []) ∷ [];
  out_data = 5;
  out_priority = some (pos 2);
  out_routing_rules = 8 ∷ [];
  out_routing_priority = pos 1;
}

abbrev nonce : List ℕ
nonce = 1 ∷ 2 ∷ 3 ∷ 4 ∷ 5 ∷ 6 ∷ 7 ∷ 8 ∷ 9 ∷ 10 ∷ 11 ∷ 12 ∷ []

abbrev key : Option (List ℕ)
key = some (7 ∷ [])

abbrev match_key : Text
match_key = 97 ∷ []

abbrev get : Text → List ℕ
get text = nonce ++ 43 ∷ []

abbrev announcement : List ℕ
announcement = nonce ++ 4 ∷ 98 ∷ []

abbrev payload : List ℕ
payload = nonce ++ 8 ∷ 10 ∷ 3 ∷ 2 ∷ 9 ∷ 6 ∷ 75 ∷ 81 ∷ []

messages :
    (announce (cipher shift shift_laws key) announcement_json in_json out_json nonce 3 match_key
      ≡ some announcement)
    × (stored_data (cipher shift shift_laws key) announcement_json in_json out_json nonce (42 ∷ [])
        ≡ some (get match_key))
    × (seal
          (cipher shift shift_laws key)
          out_json
          nonce
          (answer (cipher shift shift_laws key) announcement_json in_json out_json self 9)
        ≡ some payload)
unfolding announce stored_data seal create_cipher encrypt
messages = (refl, refl, refl)

own : HasOwnLabels self.labels
unfolding is_built_in_name
own = (refl, tt)

match_in-match_out_example :
    IsMatch self 3 match_key
      (42 ∷ [])
      9
      (match_in
        (cipher shift shift_laws key)
        announcement_json
        in_json
        out_json
        self
        nonce
        9
        (λ lock_key. true)
        get
        announcement)
      (match_out (cipher shift shift_laws key) announcement_json in_json out_json)
match_in-match_out_example =
    match_in-match_out shift shift_laws key announcement_json in_json out_json announcement_laws
      in_laws out_laws self nonce nonce nonce 3 9 match_key (42 ∷ []) (λ lock_key. true) get
      announcement payload own refl refl refl messages.0 messages.1 refl messages.2
