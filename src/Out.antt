-- ===== src/Out.antt =====
-- src/lib/out: the outputs of an OUT, and the choice of one for each stream of a tunnel.
pub mod Serve
mod Examples
use mathlib.Core.Option
use plug2proxy.Prelude.{
  ℕ, nat_eq, list_eq, ◌≡◌, Bool, true, false, Option, none, some, List, [], ◌∷◌,
}
use plug2proxy.Net.{Text, IpAddr, SocketAddr, port}
use plug2proxy.HashMap

-- `LocalIpOrInterface`, and how it is read from the configuration: `parse_ip` is `str::parse`.
pub data LocalIpOrInterface : Type 0 where
  ip : IpAddr → LocalIpOrInterface
  interface : Text → LocalIpOrInterface

unfoldable pub local_ip_or_interface : (Text → Option IpAddr) → Text → LocalIpOrInterface
local_ip_or_interface parse_ip value = elim (parse_ip value) [
  | none ↦ interface value
  | some a ↦ ip a
]

pub data AnyOutput : Type 0 where
  local : Option LocalIpOrInterface → AnyOutput
  socks5 : SocketAddr → AnyOutput

-- `OutOutputConfig`: the tag and the rest.
pub data OutOutputConfig : Type 0 where
  local_config : Text → LocalIpOrInterface → OutOutputConfig
  socks5_config : Text → SocketAddr → OutOutputConfig

unfoldable pub tag : OutOutputConfig → Text
tag (local_config tag_ bind) = tag_
tag (socks5_config tag_ address) = tag_

unfoldable pub into_output : OutOutputConfig → AnyOutput
into_output (local_config tag_ bind) = local (some bind)
into_output (socks5_config tag_ address) = socks5 address

-- `LocalOutput::default()`.
abbrev pub direct_output : AnyOutput
direct_output = local none

-- `output_map` of `up`: the configurations are collected one after the other.
unfoldable pub collect : List (Text × AnyOutput) → List OutOutputConfig → List (Text × AnyOutput)
collect outputs [] = outputs
collect outputs (config ∷ configs) =
    collect (HashMap.insert (tag config) (into_output config) outputs) configs

unfoldable pub output_map : List OutOutputConfig → List (Text × AnyOutput)
output_map configs = collect [] configs

-- A destination that a tunnel's `accept` gives: the address, the name and the tag.
abbrev pub Destination : Type 0
Destination = SocketAddr × Option Text × Option Text

-- What `accept` gives: a stream, or an error, with whether the tunnel is closed then.
pub data Accepted : Type 0 where
  stream : Destination → Accepted
  failed : Bool → Accepted

unfoldable pub choose_output : List (Text × AnyOutput) → Option Text → AnyOutput
choose_output outputs none = direct_output
choose_output outputs (some tag_) = Option.get_or (HashMap.get tag_ outputs) direct_output

-- How `handle_tunnel` stands after what `accept` has given: the streams that were spawned, and whether it
-- goes on.
unfoldable pub handle_tunnel :
    List (Text × AnyOutput) → List Accepted → List (Destination × AnyOutput) × Bool
handle_tunnel outputs [] = ([], true)
handle_tunnel outputs (stream (address, name, tag_) ∷ events) =
    let (spawned, running) = handle_tunnel outputs events in
    (((address, name, tag_), choose_output outputs tag_) ∷ spawned, running)
handle_tunnel outputs (failed closed ∷ events) =
    let rest = handle_tunnel outputs events in elim closed [ true ↦ ([], false) | false ↦ rest ]

-- `address` of `handle_tcp_stream`: `lookup_host` gives the addresses of a name and a port, or an error.
unfoldable pub stream_address :
    (Text → ℕ → Option (List SocketAddr)) → SocketAddr → Option Text → Option SocketAddr
stream_address lookup_host destination_address none = some destination_address
stream_address lookup_host destination_address (some name) =
    elim (lookup_host name (port destination_address)) [
      | none ↦ none
      | some addresses ↦ elim addresses [
        | [] ↦ some destination_address
        | address ∷ more ↦ some address
      ]
    ]
