-- ===== src/Tunnel/ByteStream/Connect.antt =====
-- How `connect` ends (src/lib/tunnel/byte_stream_tunnel.rs).
use mathlib.Core.Option
use plug2proxy.Prelude.{
  ◌<◌, ◌≤◌, ◌⊎◌, ◌≡◌, refl, Bool, true, false, Option, List, [], ◌∷◌, ◌++◌, ℕ, arith, length,
  Bool-cases, inl, inr, ltb,
}
use plug2proxy.Net.{Text, SocketAddr}
use plug2proxy.Tunnel.ByteStream.{
  Result, ok, err, open_failed, write_failed, too_long, written_bytes, is_written, connect,
  address_head, text_head,
}

abbrev pub IsLong : Option Text → Option Text → Type 0
IsLong name tag = (255 < length (Option.get_or name [])) ⊎ (255 < length (Option.get_or tag []))

abbrev pub IsShort : Option Text → Option Text → Type 0
IsShort name tag = (length (Option.get_or name []) ≤ 255) × (length (Option.get_or tag []) ≤ 255)

-- How `connect` ends.
abbrev pub ConnectCases :
    Bool → Bool → Option Text → Option Text → Result (List ℕ) → Result (List ℕ) → Type 0
ConnectCases opened all_written name tag written result =
    ((result ≡ err open_failed) × (opened ≡ false))
    ⊎ (((result ≡ err too_long) × (opened ≡ true) × IsLong name tag)
        ⊎ (((result ≡ err write_failed)
              × (opened ≡ true)
              × IsShort name tag
              × (all_written ≡ false))
            ⊎ ((bytes : List ℕ) × (result ≡ ok bytes)
                × (opened ≡ true)
                × IsShort name tag
                × (all_written ≡ true)
                × (written ≡ ok bytes))))

written_bytes_cases :
    (address : SocketAddr) (name tag : Option Text) (sniff_buffer : Option (List ℕ))
    → ((written_bytes address name tag sniff_buffer ≡ err too_long) × IsLong name tag)
      ⊎ ((bytes : List ℕ) × (written_bytes address name tag sniff_buffer ≡ ok bytes)
          × IsShort name tag)
unfolding written_bytes text_head
written_bytes_cases address name tag sniff_buffer =
    elim (Bool-cases (ltb (length (Option.get_or name [])) 256)) [
      | inr p ↦ inl (rw p, inl (ground arith))
      | inl p ↦ elim (Bool-cases (ltb (length (Option.get_or tag [])) 256)) [
        | inr q ↦ inl (rw (p, q), inr (ground arith))
        | inl q ↦ inr (
          address_head address
              ++ ((length (Option.get_or name []) ∷ Option.get_or name [])
                  ++ ((length (Option.get_or tag []) ∷ Option.get_or tag [])
                      ++ Option.get_or sniff_buffer [])),
          rw (p, q),
          (ground arith, ground arith),
        )
      ]
    ]

-- `connect` fails in one of three ways or writes: no stream is opened; a stream is, but the name or the tag
-- takes more than 255 bytes; both are short, but the head or the buffer, where there is one, cannot be
-- written; or a stream is opened, both are short and all is written, and the bytes are the head and the
-- buffer.
pub connect_cases :
    (opened head_written sniff_buffer_written : Bool) (address : SocketAddr)
    (name tag : Option Text) (sniff_buffer : Option (List ℕ))
    → ConnectCases opened
        (is_written head_written sniff_buffer_written sniff_buffer)
        name
        tag
        (written_bytes address name tag sniff_buffer)
        (connect opened head_written sniff_buffer_written address name tag sniff_buffer)
unfolding connect
connect_cases false head_written sniff_buffer_written address name tag sniff_buffer =
    inl (refl, refl)
connect_cases true head_written sniff_buffer_written address name tag sniff_buffer =
    elim (written_bytes_cases address name tag sniff_buffer) [
      | inl (e, long) ↦ inr (inl (rw e, refl, long))
      | inr (bytes, e, short) ↦
          elim (Bool-cases (is_written head_written sniff_buffer_written sniff_buffer)) [
            | inl w ↦ inr (inr (inr (bytes, rw (e, w), refl, short, w, e)))
            | inr w ↦ inr (inr (inl (rw (e, w), refl, short, w)))
          ]
    ]
