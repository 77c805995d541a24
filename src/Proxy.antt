-- ===== src/Proxy.antt =====
-- src/lib/in/transparent_proxy.rs: what is done for a TCP connection and for a datagram. What the socket
-- gives to each read is a list of events, and `tls_parser` and the GeoLite2 lookup are parameters.
pub mod Sniff
pub mod Datagrams
mod Examples
use mathlib.Core.Option
use plug2proxy.Prelude.{
  ℕ, ◌+◌, Bool, true, false, not, ◌&&◌, ◌||◌, Option, none, some, List, [], ◌∷◌, ◌++◌,
  if◌then◌else◌, is_empty, nat_beq, leb, ltb, length, get_elem?,
}
use plug2proxy.Net.{Text, IpAddr, SocketAddr, ip, port}
use plug2proxy.Tunnel.Utf8.{is_utf8}
use plug2proxy.FakeIp.Table.{Row, Sqlite}
use plug2proxy.FakeIp.Resolver.{FakeIpResolver, Resolution, resolved, not_found, panicked, resolve}
use plug2proxy.Route.Rule.{RuleTrait}
use plug2proxy.Route.Router.{Router, Labels, match}
use plug2proxy.Manager.{InTunnel, TunnelManager, AnyInTunnel, through, direct_tunnel, select_tunnel}
use plug2proxy.UdpForwarder.{UdpForwarder, get_associated_destination, send}

-- `tls_parser`: a record is incomplete, malformed, or a list of messages; a client hello may have
-- extensions, which may be malformed; the names of an SNI extension are host names or not.
pub data Extension : Type 0 where
  sni : List (Bool × List ℕ) → Extension
  other_extension : Extension

pub data Message : Type 0 where
  client_hello : Option (List ℕ) → Message
  other_message : Message

pub data Plaintext : Type 0 where
  incomplete malformed : Plaintext
  parsed : List Message → Plaintext

pub record TlsParser : Type 0 where
  pub parse_tls_plaintext : List ℕ → Plaintext
  pub parse_tls_client_hello_extensions : List ℕ → Option (List Extension)

-- The first host name, where it is UTF-8.
unfoldable pub hostname_of : List (Bool × List ℕ) → Option (Option Text)
hostname_of [] = none
hostname_of ((true, bytes) ∷ names) = some (if is_utf8 bytes then some bytes else none)
hostname_of ((false, bytes) ∷ names) = hostname_of names

unfoldable pub extensions_loop : List Extension → Option (Option Text)
extensions_loop [] = none
extensions_loop (other_extension ∷ extensions) = extensions_loop extensions
extensions_loop (sni names ∷ extensions) = elim (hostname_of names) [
  | some hostname ↦ some hostname
  | none ↦ extensions_loop extensions
]

module _ (tls : TlsParser) where
  -- `?` on a hello without extensions, or with malformed ones, gives `none`.
  unfoldable pub messages_loop : List Message → Option (Option Text)
  messages_loop [] = some none
  messages_loop (other_message ∷ messages) = messages_loop messages
  messages_loop (client_hello none ∷ messages) = none
  messages_loop (client_hello (some bytes) ∷ messages) =
      elim (tls.parse_tls_client_hello_extensions bytes) [
        | none ↦ none
        | some extensions ↦ elim (extensions_loop extensions) [
          | some hostname ↦ some hostname
          | none ↦ messages_loop messages
        ]
      ]

  unfoldable pub extract_sni_hostname : List ℕ → Option (Option Text)
  extract_sni_hostname buffer = elim (tls.parse_tls_plaintext buffer) [
    | incomplete ↦ none
    | malformed ↦ some none
    | parsed messages ↦ messages_loop messages
  ]

-- What `try_read` gives: bytes, none at the end of the stream; nothing yet; or an error.
pub data Read : Type 0 where
  received : List ℕ → Read
  would_block failed : Read

-- How the loop ends: the name, the bytes read, whether the stream ended, and the reads to come; or it
-- waits for more.
pub data Sniffed : Type 0 where
  sniffed : Option Text → List ℕ → Bool → List Read → Sniffed
  waiting : Sniffed

abbrev pub read_attempts_limit : ℕ
read_attempts_limit = 5

unfoldable pub byte_is_not : List ℕ → ℕ → ℕ → Bool
byte_is_not buffer i b = elim (get_elem? buffer i) [ none ↦ false | some c ↦ not (nat_beq c b) ]

-- Not the start of a TLS handshake.
abbrev pub is_not_tls : List ℕ → Bool
is_not_tls buffer = byte_is_not buffer 0 0x16 || byte_is_not buffer 1 0x03

module _ (tls : TlsParser) where
  unfoldable pub sniff_loop : (determined : Bool) (read_attempts : ℕ) → List ℕ → List Read → Sniffed
  sniff_loop determined read_attempts sniff_buffer [] = waiting
  sniff_loop determined read_attempts sniff_buffer (received [] ∷ reads) =
      sniffed none sniff_buffer true reads
  sniff_loop determined read_attempts sniff_buffer (received (b ∷ bytes) ∷ reads) =
      let sniff_buffer' = sniff_buffer ++ b ∷ bytes in
      elim determined [
        | true ↦ sniff_loop determined read_attempts sniff_buffer' reads
        | false ↦ elim (is_not_tls sniff_buffer') [
          | true ↦ sniffed none sniff_buffer' false reads
          | false ↦ elim (extract_sni_hostname tls sniff_buffer') [
            | some hostname ↦ sniffed hostname sniff_buffer' false reads
            | none ↦ sniff_loop determined read_attempts sniff_buffer' reads
          ]
        ]
      ]
  sniff_loop determined read_attempts sniff_buffer (would_block ∷ reads) =
      elim (not determined && ltb read_attempts read_attempts_limit) [
        | true ↦ sniff_loop determined (read_attempts + 1) sniff_buffer reads
        | false ↦ sniffed none sniff_buffer false reads
      ]
  sniff_loop determined read_attempts sniff_buffer (failed ∷ reads) =
      sniffed none sniff_buffer false reads

-- What resolving gives: a destination, none, or a panic, at which the program aborts.
pub data Resolved (A : Type 0) : Type 0 where
  destination : A → Resolved A
  no_destination aborted : Resolved A

-- What a connection is resolved to; the reads are those still to come.
pub record Destination : Type 0 where
  pub address : SocketAddr
  pub name : Option Text
  pub labels_groups : List Labels
  pub sniff_buffer : Option (List ℕ)
  pub end : Bool
  pub reads : List Read

-- `SocketAddr::new`.
abbrev pub socket_address : IpAddr → ℕ → SocketAddr
socket_address (IpAddr.v4 bits) p = SocketAddr.v4 bits p
socket_address (IpAddr.v6 bits) p = SocketAddr.v6 bits p 0 0

module _ {R : Type 0} (t : RuleTrait R) (unique : List Labels → List Labels) (sqlite : Sqlite)
    (geolite2_lookup : IpAddr → Option (List Text)) where
  abbrev pub route : Router R → IpAddr → SocketAddr → Option Text → List Labels
  route router real_ip real_destination name =
      match t unique router real_destination name (geolite2_lookup real_ip)

  -- No destination where the address is not found or the reads do not suffice.
  unfoldable pub resolve_tcp_destination :
      TlsParser
      → FakeIpResolver
      → List Row
      → Router R
      → SocketAddr
      → List Read
      → Resolved Destination
  resolve_tcp_destination tls resolver rows router original reads =
      elim (resolve sqlite resolver rows (ip original)) [
        | not_found ↦ no_destination
        | panicked ↦ aborted
        | resolved real_ip (some name) ↦
            let real_destination = socket_address real_ip (port original) in
            destination (record {
              address = real_destination;
              name = some name;
              labels_groups = route router real_ip real_destination (some name);
              sniff_buffer = none;
              end = false;
              reads = reads;
            })
        | resolved real_ip none ↦ elim (sniff_loop tls false 0 [] reads) [
          | waiting ↦ no_destination
          | sniffed name sniff_buffer end rest ↦
              let real_destination = socket_address real_ip (port original) in
              destination (record {
                address = real_destination;
                name = name;
                labels_groups = route router real_ip real_destination name;
                sniff_buffer = if is_empty sniff_buffer then none else some sniff_buffer;
                end = end;
                reads = rest;
              })
        ]
      ]

  unfoldable pub resolve_udp_destination :
      FakeIpResolver
      → List Row
      → Router R
      → SocketAddr
      → Resolved (SocketAddr × Option Text × List Labels)
  resolve_udp_destination resolver rows router original =
      elim (resolve sqlite resolver rows (ip original)) [
        | not_found ↦ no_destination
        | panicked ↦ aborted
        | resolved real_ip name ↦
            let real_destination = socket_address real_ip (port original) in
            destination (real_destination, name, route router real_ip real_destination name)
      ]

  -- The destination of the association, or else that of the address.
  unfoldable pub datagram_destination :
      FakeIpResolver
      → List Row
      → Router R
      → UdpForwarder
      → SocketAddr
      → SocketAddr
      → Resolved SocketAddr
  datagram_destination resolver rows router forwarder source original =
      elim (get_associated_destination forwarder source original) [
        | some real ↦ destination real
        | none ↦ elim (resolve_udp_destination resolver rows router original) [
          | destination r ↦ destination r.0
          | no_destination ↦ no_destination
          | aborted ↦ aborted
        ]
      ]

  -- What the loop does with a datagram: the state after, the real destination, and whether there was
  -- no error.
  unfoldable pub on_datagram :
      FakeIpResolver
      → List Row
      → Router R
      → UdpForwarder
      → SocketAddr
      → SocketAddr
      → Bool
      → UdpForwarder × Resolved SocketAddr × Bool
  on_datagram resolver rows router forwarder source original sent =
      elim (datagram_destination resolver rows router forwarder source original) [
        | no_destination ↦ (forwarder, no_destination, true)
        | aborted ↦ (forwarder, aborted, false)
        | destination real ↦
            let after = send forwarder source original real sent in
            (after.0, destination real, after.1)
      ]

-- What becomes of a connection: it is shut down, it fails, or it is connected through a tunnel to which
-- the bytes are written before those of the client are copied.
pub data Handled : Type 0 where
  rejected failed_to_connect : Handled
  connected : AnyInTunnel → List ℕ → Handled

-- `connect` of the direct tunnel, which writes the sniffed bytes alone; `opened` is whether the socket is
-- connected and written to, and `none` an error.
unfoldable pub connect_direct : Bool → Option (List ℕ) → Option (List ℕ)
connect_direct opened sniff_buffer = if opened then some (Option.get_or sniff_buffer []) else none

-- `connect` of `InTunnelLike` for a tunnel: what it has written, or an error. Each kind of tunnel has
-- its own.
abbrev pub TunnelConnect : Type 0
TunnelConnect =
    InTunnel → SocketAddr → Option Text → Option Text → Option (List ℕ) → Option (List ℕ)

abbrev connect : TunnelConnect → Bool → AnyInTunnel → Destination → Option Text → Option (List ℕ)
connect tunnel_connect opened direct_tunnel d tag = connect_direct opened d.sniff_buffer
connect tunnel_connect opened (through t) d tag =
    tunnel_connect t d.address d.name tag d.sniff_buffer

unfoldable pub handle_in_tcp_stream :
    TunnelConnect → (InTunnel → Bool) → TunnelManager → Bool → Destination → TunnelManager × Handled
handle_in_tcp_stream tunnel_connect is_active manager opened d =
    let choice = select_tunnel is_active manager d.labels_groups in
    elim choice.1 [
      | none ↦ (choice.0, rejected)
      | some (tunnel, tag) ↦ elim (connect tunnel_connect opened tunnel d tag) [
        | none ↦ (choice.0, failed_to_connect)
        | some bytes ↦ (choice.0, connected tunnel bytes)
      ]
    ]
