-- ===== src/Tunnel/ByteStream/RoundTrip.antt =====
-- OUT reads back the head that IN wrote (src/lib/tunnel/byte_stream_tunnel.rs).
use mathlib.Core.Option
use plug2proxy.Prelude.{
  ℕ, suc, ◌^◌, ◌<◌, ◌⊎◌, ◌≡◌, refl, ap, ◌∙◌, subst, Bool, true, false, Option, none, some, List, [],
  ◌∷◌, ◌++◌, arith, length, Bool-cases, inl, inr, ltb,
}
use mathlib.Core.List.{append_assoc}
use plug2proxy.Net.{Text, SocketAddr}
use plug2proxy.Tunnel.Bytes.{
  to_be_bytes, from_be_bytes, length-to_be_bytes, from_be_bytes-to_be_bytes,
}
use plug2proxy.Tunnel.Utf8.{is_utf8}
use plug2proxy.Tunnel.ByteStream.{
  Result, Error, ok, err, written_bytes, is_written, connect, accept, read_exact, read_uint,
  read_address, read_text, address_head, text_head,
}

pub read_exact-append : (xs rest : List ℕ) → read_exact (length xs) (xs ++ rest) ≡ ok (xs, rest)
unfolding read_exact
read_exact-append [] rest = refl
read_exact-append (x ∷ xs) rest = rw (read_exact-append xs rest)

read_exact_of_length :
    (n : ℕ) (xs rest : List ℕ) → length xs ≡ n → read_exact n (xs ++ rest) ≡ ok (xs, rest)
read_exact_of_length n xs rest e =
    subst (λ k. read_exact k (xs ++ rest) ≡ ok (xs, rest)) e (read_exact-append xs rest)

read_uint-to_be_bytes :
    (n x : ℕ) (rest : List ℕ) → x < 256 ^ n → read_uint n (to_be_bytes n x ++ rest) ≡ ok (x, rest)
unfolding read_uint
read_uint-to_be_bytes n x rest h = rw (
  read_exact_of_length n (to_be_bytes n x) rest (length-to_be_bytes n x),
  from_be_bytes-to_be_bytes n x h,
)

-- One byte is its own value.
read_uint_byte : (b : ℕ) (rest : List ℕ) → read_uint 1 (b ∷ rest) ≡ ok (b, rest)
unfolding read_uint from_be_bytes
read_uint_byte b rest = ap (λ n. ok (n, rest)) (omega arith)

-- An address that the program can hold.
abbrev pub InRange : SocketAddr → Type 0
InRange (SocketAddr.v4 ip port) = (ip < 2 ^ 32) × (port < 2 ^ 16)
InRange (SocketAddr.v6 ip port flowinfo scope) = (ip < 2 ^ 128) × (port < 2 ^ 16)

-- The flow information and the scope of an IPv6 address are not sent.
abbrev pub sent_address : SocketAddr → SocketAddr
sent_address (SocketAddr.v4 ip port) = SocketAddr.v4 ip port
sent_address (SocketAddr.v6 ip port flowinfo scope) = SocketAddr.v6 ip port 0 0

read_address-address_head :
    (address : SocketAddr) (rest : List ℕ)
    → InRange address
    → read_address (address_head address ++ rest) ≡ ok (sent_address address, rest)
unfolding read_address address_head
read_address-address_head (SocketAddr.v4 ip port) rest h = rw (
  read_uint_byte 0,
  append_assoc (to_be_bytes 4 ip) (to_be_bytes 2 port) rest,
  read_uint-to_be_bytes 4 ip _ (omega arith),
  read_uint-to_be_bytes 2 port _ (omega arith),
)
read_address-address_head (SocketAddr.v6 ip port flowinfo scope) rest h = rw (
  read_uint_byte 128,
  append_assoc (to_be_bytes 16 ip) (to_be_bytes 2 port) rest,
  read_uint-to_be_bytes 16 ip _ (omega arith),
  read_uint-to_be_bytes 2 port _ (omega arith),
)

-- A text is sent as itself, and an empty text as none.
abbrev pub sent_text : Option Text → Option Text
sent_text none = none
sent_text (some []) = none
sent_text (some (c ∷ text)) = some (c ∷ text)

ok-eq-ok : {A : Type 0} {a b : A} → ok a ≡ ok b → a ≡ b
ok-eq-ok e = cc

-- A text of the program is UTF-8.
abbrev pub IsText : Option Text → Type 0
IsText none = Unit
IsText (some text) = is_utf8 text ≡ true

read_text-text_head :
    (text : Option Text) (head rest : List ℕ)
    → IsText text
    → text_head text ≡ ok head
    → read_text (head ++ rest) ≡ ok (sent_text text, rest)
unfolding read_text text_head
read_text-text_head none head rest t h = rw (← ok-eq-ok h, read_uint_byte 0)
read_text-text_head (some []) head rest t h = rw (← ok-eq-ok h, read_uint_byte 0)
read_text-text_head (some (c ∷ text)) head rest t h =
    elim (Bool-cases (ltb (suc (length text)) 256)) [
      | inl e ↦
          let sent = ok-eq-ok (rw e at h) in
          rw (← sent, read_uint_byte (suc (length text)), read_exact-append (c ∷ text) rest, t)
            (ground arith)
      | inr e ↦ absurd (ground arith)
    ]

Result-cases : {A : Type 0} (r : Result A) → ((a : A) × (r ≡ ok a)) ⊎ ((e : Error) × (r ≡ err e))
Result-cases (ok a) = inl (a, refl)
Result-cases (err e) = inr (e, refl)

accept_head :
    (address : SocketAddr) (name tag : Option Text) (name_head tag_head rest : List ℕ)
    → InRange address
    → IsText name
    → IsText tag
    → text_head name ≡ ok name_head
    → text_head tag ≡ ok tag_head
    → accept (address_head address ++ (name_head ++ (tag_head ++ rest)))
      ≡ ok ((sent_address address, sent_text name, sent_text tag), rest)
unfolding accept
accept_head address name tag name_head tag_head rest in_range n t hn ht = rw (
  read_address-address_head address _ in_range,
  read_text-text_head name name_head _ n hn,
  read_text-text_head tag tag_head rest t ht,
)

-- What `connect` is to write.
written_bytes-ok :
    (address : SocketAddr) (name tag : Option Text) (sniff_buffer : Option (List ℕ))
    (bytes : List ℕ)
    → written_bytes address name tag sniff_buffer ≡ ok bytes
    → (name_head : List ℕ) × (tag_head : List ℕ) × (text_head name ≡ ok name_head)
      × (text_head tag ≡ ok tag_head)
      × (address_head address ++ (name_head ++ (tag_head ++ Option.get_or sniff_buffer [])) ≡ bytes)
unfolding written_bytes
written_bytes-ok address name tag sniff_buffer bytes h = elim (Result-cases (text_head name)) [
  | inr (e, p) ↦ cc (rw p at h)
  | inl (name_head, p) ↦ elim (Result-cases (text_head tag)) [
    | inr (e, q) ↦ cc (rw (p, q) at h)
    | inl (tag_head, q) ↦ (name_head, tag_head, p, q, ok-eq-ok (rw (p, q) at h))
  ]
]

-- The bytes of a `connect` that succeeds.
connect-ok :
    (opened head_written sniff_buffer_written : Bool) (address : SocketAddr)
    (name tag : Option Text) (sniff_buffer : Option (List ℕ)) (bytes : List ℕ)
    → connect opened head_written sniff_buffer_written address name tag sniff_buffer ≡ ok bytes
    → written_bytes address name tag sniff_buffer ≡ ok bytes
unfolding connect
connect-ok false head_written sniff_buffer_written address name tag sniff_buffer bytes h = cc
connect-ok true head_written sniff_buffer_written address name tag sniff_buffer bytes h =
    elim (Result-cases (written_bytes address name tag sniff_buffer)) [
      | inr (e, p) ↦ cc (rw p at h)
      | inl (written, p) ↦
          elim (Bool-cases (is_written head_written sniff_buffer_written sniff_buffer)) [
            | inl w ↦ p ∙ rw (p, w) at h
            | inr w ↦ cc (rw (p, w) at h)
          ]
    ]

-- What IN writes when `connect` succeeds, OUT reads back, whatever follows on the stream: the address
-- without its flow information and scope, the name and the tag with an empty one read as none; and
-- it leaves on the stream exactly the sniffed bytes and what follows. The address is in range and the
-- name and the tag are UTF-8.
pub accept-connect :
    (opened head_written sniff_buffer_written : Bool) (address : SocketAddr)
    (name tag : Option Text) (sniff_buffer : Option (List ℕ)) (bytes payload : List ℕ)
    → InRange address
    → IsText name
    → IsText tag
    → connect opened head_written sniff_buffer_written address name tag sniff_buffer ≡ ok bytes
    → accept (bytes ++ payload)
      ≡ ok (
        (sent_address address, sent_text name, sent_text tag),
        Option.get_or sniff_buffer [] ++ payload,
      )
accept-connect opened head_written sniff_buffer_written address name tag sniff_buffer bytes payload
      in_range n t h =
    let (name_head, tag_head, hn, ht, e) =
      written_bytes-ok address name tag sniff_buffer bytes (
        connect-ok opened head_written sniff_buffer_written address name tag sniff_buffer bytes
          h) in
    rw
      (
        ← e,
        append_assoc (address_head address) _ payload,
        append_assoc name_head _ payload,
        append_assoc tag_head _ payload,
      )
      (accept_head address name tag name_head tag_head _ in_range n t hn ht)
