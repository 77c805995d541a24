-- ===== src/Out/Examples.antt =====
-- Two outputs of one tag, and a tunnel that closes.
use plug2proxy.Prelude.{◌≡◌, true, false, none, some, List, [], ◌∷◌, map}
use plug2proxy.Net.{SocketAddr}
use plug2proxy.Out.{
  OutOutputConfig, socks5_config, output_map, Destination, Accepted, stream, failed, handle_tunnel,
}
use plug2proxy.Out.Serve.{output_for, served, still_open, handle_tunnel_iff}

abbrev configs : List OutOutputConfig
configs =
    socks5_config (97 ∷ []) (SocketAddr.v4 1 1080)
    ∷ socks5_config (97 ∷ []) (SocketAddr.v4 2 1080)
    ∷ []

abbrev destination : Destination
destination = (SocketAddr.v4 9 443, none, some (97 ∷ []))

abbrev events : List Accepted
events =
    stream destination ∷ failed false ∷ stream destination ∷ failed true ∷ stream destination ∷ []

handle_tunnel_iff_example :
    handle_tunnel (output_map configs) events
    ≡ (map (λ (d : Destination). (d, output_for configs d.2)) (served events), still_open events)
handle_tunnel_iff_example = handle_tunnel_iff configs events
