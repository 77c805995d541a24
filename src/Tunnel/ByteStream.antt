-- ===== src/Tunnel/ByteStream.antt =====
-- src/lib/tunnel/byte_stream_tunnel.rs: the head that IN writes to a stream of a tunnel and OUT reads
-- from it. A stream is the list of the bytes on it, to its end.
pub mod RoundTrip
pub mod Connect
use Prim.Native.Nat.{bit_and}
use mathlib.Core.Option
use plug2proxy.Prelude.{
  ℕ, zero, suc, Bool, true, false, ◌&&◌, Option, none, some, List, [], ◌∷◌, ◌++◌, if◌then◌else◌,
  nat_beq, ltb, length,
}
use plug2proxy.Net.{Text, SocketAddr}
use plug2proxy.Tunnel.Bytes.{to_be_bytes, from_be_bytes}
use plug2proxy.Tunnel.Utf8.{is_utf8}

-- The connection opens no stream; a write to it fails; `try_into` to `u8` fails; the stream ends early; a
-- text is not UTF-8.
pub data Error : Type 0 where
  open_failed write_failed too_long unexpected_eof invalid_utf8 : Error

pub data Result (A : Type 0) : Type 0 where
  ok : A → Result A
  err : Error → Result A

infixl 5 ◌>>=◌
abbrev pub ◌>>=◌ : {A B : Type 0} → Result A → (A → Result B) → Result B
ok a >>= f = f a
err e >>= f = err e

-- The option byte and the address.
unfoldable pub address_head : SocketAddr → List ℕ
address_head (SocketAddr.v4 ip port) = 0 ∷ to_be_bytes 4 ip ++ to_be_bytes 2 port
address_head (SocketAddr.v6 ip port flowinfo scope) = 128 ∷ to_be_bytes 16 ip ++ to_be_bytes 2 port

-- A name or a tag behind its length, none as the empty text.
unfoldable pub text_head : Option Text → Result (List ℕ)
text_head text =
    let bytes = Option.get_or text [] in
    if ltb (length bytes) 256 then ok (length bytes ∷ bytes) else err too_long

-- What `connect` is to write to the stream: the head, then what was sniffed.
unfoldable pub written_bytes :
    SocketAddr → Option Text → Option Text → Option (List ℕ) → Result (List ℕ)
written_bytes destination_address destination_name tag sniff_buffer = do
  name_head ← text_head destination_name
  tag_head ← text_head tag
  ok (
      address_head destination_address
      ++ (name_head ++ (tag_head ++ Option.get_or sniff_buffer [])))

-- Whether both calls of `write_all` succeed; the second is for a buffer alone.
abbrev pub is_written : Bool → Bool → Option (List ℕ) → Bool
is_written head_written sniff_buffer_written none = head_written
is_written head_written sniff_buffer_written (some sniff_buffer) =
    head_written && sniff_buffer_written

-- The bytes written; `opened` and the two others are whether `open` and the calls of `write_all` succeed.
unfoldable pub connect :
    Bool → Bool → Bool → SocketAddr → Option Text → Option Text → Option (List ℕ) → Result (List ℕ)
connect opened head_written sniff_buffer_written destination_address destination_name tag
      sniff_buffer =
    if opened
    then (do
      bytes ← written_bytes destination_address destination_name tag sniff_buffer
      if is_written head_written sniff_buffer_written sniff_buffer
          then ok bytes
          else err write_failed)
    else err open_failed

-- `read_exact`: the next bytes, and the rest of the stream.
unfoldable pub read_exact : ℕ → List ℕ → Result (List ℕ × List ℕ)
read_exact zero stream = ok ([], stream)
read_exact (suc n) [] = err unexpected_eof
read_exact (suc n) (b ∷ stream) = read_exact n stream >>= λ r. ok (b ∷ r.0, r.1)

-- `read_u8`, `read_u16`, `read_u32` and `read_u128`, by the number of bytes.
unfoldable pub read_uint : ℕ → List ℕ → Result (ℕ × List ℕ)
unfolding read_exact
read_uint n stream = read_exact n stream >>= λ r. ok (from_be_bytes r.0, r.1)

unfoldable pub read_address : List ℕ → Result (SocketAddr × List ℕ)
read_address stream = do
  option ← read_uint 1 stream
  if nat_beq (bit_and option.0 128) 0
      then (do
        ip ← read_uint 4 option.1
        port ← read_uint 2 ip.1
        ok (SocketAddr.v4 ip.0 port.0, port.1))
      else (do
        ip ← read_uint 16 option.1
        port ← read_uint 2 ip.1
        ok (SocketAddr.v6 ip.0 port.0 0 0, port.1))

-- A length, and as many bytes of text.
unfoldable pub read_text : List ℕ → Result (Option Text × List ℕ)
read_text stream = do
  text_length ← read_uint 1 stream
  if nat_beq text_length.0 0 then ok (none, text_length.1) else (do
    buffer ← read_exact text_length.0 text_length.1
    if is_utf8 buffer.0 then ok (some buffer.0, buffer.1) else err invalid_utf8)

-- `accept` on a stream that the connection gave: the destination, and what is left of the stream.
unfoldable pub accept : List ℕ → Result ((SocketAddr × Option Text × Option Text) × List ℕ)
accept stream = do
  address ← read_address stream
  name ← read_text address.1
  tag ← read_text name.1
  ok ((address.0, name.0, tag.0), tag.1)
