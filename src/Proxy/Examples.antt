-- ===== src/Proxy/Examples.antt =====
-- The theorems of the proxy for a connection that is no TLS, and for a first datagram.
use plug2proxy.Prelude.{
  ℕ, ◌≡◌, refl, Bool, true, false, Option, none, some, List, [], ◌∷◌, ◌++◌, arith, inl,
}
use plug2proxy.Net.{Text, SocketAddr, socket_address_eq, ip, port}
use plug2proxy.HashMap
use plug2proxy.Tunnel.Bytes.{to_be_bytes}
use plug2proxy.Tunnel.ByteStream.{ok, connect, written_bytes, accept, address_head, text_head}
use plug2proxy.Tunnel.ByteStream.RoundTrip.{sent_address, sent_text}
use plug2proxy.FakeIp.Engine.{engine, resolver}
use plug2proxy.FakeIp.Resolver.{resolve, type_and_id}
use plug2proxy.Route.Rule.{RuleTrait}
use plug2proxy.Route.Router.{new}
use plug2proxy.UdpForwarder.{
  UdpForwarder, new_forwarder, send, association_of, get_associated_destination,
}
use plug2proxy.UdpForwarder.Delivery.{is_usable}
use plug2proxy.UdpForwarder.Steps.{sends, stay, then_step}
use plug2proxy.Prelude.{pos}
use plug2proxy.Proxy.{
  TlsParser, malformed, Read, received, would_block, sniffed, sniff_loop, byte_is_not, on_datagram,
  Resolved, destination, datagram_destination, resolve_udp_destination,
}
use plug2proxy.Proxy.Sniff.{bytes_of, sniff_loop_lossless, sniff_loop_ends, accept-sniff_loop}
use plug2proxy.Proxy.Datagrams.{on_datagram-on_datagram}

abbrev tls : TlsParser
tls = record {
  parse_tls_plaintext = λ buffer. malformed;
  parse_tls_client_hello_extensions = λ bytes. none;
}

-- "GET" in two pieces, a pause between them.
abbrev reads : List Read
reads = would_block ∷ received (71 ∷ []) ∷ received (69 ∷ 84 ∷ []) ∷ []

abbrev rest : List Read
rest = received (69 ∷ 84 ∷ []) ∷ []

sniffed_get : sniff_loop tls false 0 [] reads ≡ sniffed none (71 ∷ []) false rest
unfolding sniff_loop byte_is_not
sniffed_get = refl

sniff_loop_lossless_example : 71 ∷ 69 ∷ 84 ∷ [] ≡ bytes_of reads
sniff_loop_lossless_example = sniff_loop_lossless tls reads rest none (71 ∷ []) false sniffed_get

abbrev silence : List Read
silence = would_block ∷ would_block ∷ would_block ∷ would_block ∷ would_block ∷ would_block ∷ []

sniff_loop_ends_example :
    (name : Option Text) × (buffer : List ℕ) × (end : Bool) × (rest : List Read) × (sniff_loop tls
        false 0 [] silence
      ≡ sniffed name buffer end rest)
sniff_loop_ends_example = sniff_loop_ends tls silence (omega arith)

abbrev address : SocketAddr
address = SocketAddr.v4 258 80

abbrev sent : List ℕ
sent = 0 ∷ 0 ∷ 0 ∷ 1 ∷ 2 ∷ 0 ∷ 80 ∷ 0 ∷ 0 ∷ 71 ∷ []

sent_lem : connect true true true address none none (some (71 ∷ [])) ≡ ok sent
unfolding connect written_bytes text_head address_head to_be_bytes
sent_lem = refl

accept-sniff_loop_example :
    accept (sent ++ bytes_of rest)
    ≡ ok ((sent_address address, sent_text none, sent_text none), bytes_of reads)
accept-sniff_loop_example =
    accept-sniff_loop tls reads rest none none none (71 ∷ []) sent false true true true address
      sniffed_get (omega arith, omega arith) tt tt sent_lem

abbrev no_rules : RuleTrait Unit
no_rules = record {
  priority = λ r. pos 0;
  tag = λ r. none;
  match = λ r address domain region_codes any_matched. none;
}

abbrev source : SocketAddr
source = SocketAddr.v4 1 1000

fresh : is_usable new_forwarder source ≡ true
unfolding association_of HashMap.get
fresh = refl

abbrev first : UdpForwarder × Resolved SocketAddr × Bool
first =
    on_datagram no_rules (λ gs. gs) engine (λ a. none) resolver [] (new []) new_forwarder source
      address true

sent_on : first.1 ≡ destination address
unfolding on_datagram datagram_destination resolve_udp_destination get_associated_destination
    HashMap.get resolve type_and_id ip port
sent_on = refl

abbrev other : SocketAddr
other = SocketAddr.v4 2 1000

-- Another source has sent since.
abbrev later : UdpForwarder
later = (send first.0 other address address true).0

on_datagram-on_datagram_example :
    (on_datagram no_rules
      (λ gs. gs)
      engine
      (λ a. none)
      resolver
      []
      (new [])
      later
      source
      address
      true).1
    ≡ destination address
on_datagram-on_datagram_example =
    on_datagram-on_datagram no_rules (λ gs. gs) engine (λ a. none) resolver resolver [] [] (new [])
      (new []) new_forwarder later source address address true true fresh sent_on
      (then_step first.0 later stay (sends first.0 other address address true) (inl refl))
