-- ===== src/Http2/Accept/Examples.antt =====
-- Two destinations, and a request without an address.
use plug2proxy.Prelude.{◌≡◌, refl, true, none, some, List, [], ◌∷◌, ◌++◌, map, is_empty}
use plug2proxy.Net.{SocketAddr}
use plug2proxy.Out.{OutOutputConfig, socks5_config, output_map, Destination, handle_tunnel}
use plug2proxy.Out.Serve.{output_for}
use plug2proxy.Http2.Headers.{
  HeaderMap, x_address, x_tag, connect_request, header, header_option, get, get_str,
  destination_tuple,
}
use plug2proxy.Http2.Headers.Unary.{is_value, unary, print, http, laws}
use plug2proxy.Http2.Accept.{Incoming, request, new_out_tunnel, accepted_destination, accepts}
use plug2proxy.Http2.Accept.Serve.{IsSent, IsStop, readable, handle_tunnel-connect_request}

abbrev configs : List OutOutputConfig
configs = socks5_config (b'a' ∷ []) (SocketAddr.v4 1 1080) ∷ []

abbrev destinations : List Destination
destinations = (SocketAddr.v4 1 2, none, some (b'a' ∷ [])) ∷ []

abbrev headers : HeaderMap
headers = (x_address, b'4' ∷ b'1' ∷ b'.' ∷ b'1' ∷ b'1' ∷ b'.' ∷ []) ∷ (x_tag, b'a' ∷ []) ∷ []

abbrev incoming : List Incoming
incoming = request headers true ∷ []

abbrev rest : List Incoming
rest = request [] true ∷ request headers true ∷ []

sent : IsSent http laws destinations incoming
unfolding connect_request header header_option is_value print unary
sent = (refl, tt)

stop : IsStop http laws rest
unfolding accepted_destination destination_tuple get_str get
stop = refl

handle_tunnel-connect_request_example :
    handle_tunnel (output_map configs) (accepts http new_out_tunnel (incoming ++ rest)) ≡ (
      map
          (λ (d : Destination). (readable http laws d, output_for configs (readable http laws d).2))
          destinations,
      is_empty rest,
    )
handle_tunnel-connect_request_example =
    handle_tunnel-connect_request http laws configs new_out_tunnel destinations incoming rest sent
      stop
