-- ===== src/Http2/Accept.antt =====
-- src/lib/tunnel/http2/http2_tunnel.rs: `accept` and `is_closed` of `Http2OutTunnel`, as handle_tunnel of
-- src/lib/out/out.rs calls them.
pub mod Serve
mod Examples
use mathlib.Core.Option
use plug2proxy.Prelude.{◌≡◌, Bool, true, false, Option, none, some, List, [], ◌∷◌, if◌then◌else◌}
use plug2proxy.Out.{Destination, Accepted, stream, failed}
use plug2proxy.Http2.Headers.{HeaderMap, HttpExternals, destination_tuple}

-- What `poll_accept` gives when it is ready: a request, with whether the response to it could be sent; an
-- error; or the end of the connection.
pub data Incoming : Type 0 where
  request : HeaderMap → Bool → Incoming
  incoming_error : Incoming
  incoming_end : Incoming

pub record Http2OutTunnel : Type 0 where
  pub closed : Bool

abbrev pub new_out_tunnel : Http2OutTunnel
new_out_tunnel = record { closed = false }

module _ (http : HttpExternals) where
  -- The body of `poll_fn`; `none` is an error.
  unfoldable pub accepted_destination : Incoming → Option Destination
  accepted_destination (request headers sent) =
      if sent then destination_tuple http headers else none
  accepted_destination incoming_error = none
  accepted_destination incoming_end = none

  unfoldable pub accept : Http2OutTunnel → Incoming → Http2OutTunnel × Option Destination
  accept self incoming = elim (accepted_destination incoming) [
    | none ↦ (record { closed = true }, none)
    | some destination ↦ (self, some destination)
  ]

  abbrev accepted_of : Http2OutTunnel × Option Destination → Accepted
  accepted_of (self, none) = failed self.closed
  accepted_of (self, some destination) = stream destination

  -- What handle_tunnel gets, call after call, with `is_closed` after an error.
  unfoldable pub accepts : Http2OutTunnel → List Incoming → List Accepted
  accepts self [] = []
  accepts self (incoming ∷ more) =
      let after = accept self incoming in accepted_of after ∷ accepts after.0 more
