-- ===== src/Http2/Accept/Serve.antt =====
-- The streams that an IN opens through an HTTP/2 tunnel are served by the OUT
-- (src/lib/tunnel/http2/http2_tunnel.rs and src/lib/out/out.rs).
use plug2proxy.Prelude.{
  ◌≡◌, refl, sym, ap, ◌∙◌, subst, inl, inr, true, false, some-eq-some, Option, none, some, List, [],
  ◌∷◌, map, ◌++◌, is_empty,
}
use plug2proxy.Net.{Text, SocketAddr}
use plug2proxy.Out.{
  AnyOutput, OutOutputConfig, output_map, Destination, stream, failed, handle_tunnel,
}
use plug2proxy.Out.Serve.{output_for, choose_output-output_map}
use plug2proxy.Http2.Headers.{
  HeaderMap, HttpExternals, HttpLaws, printed_address, connect_request, destination_tuple,
}
use plug2proxy.Http2.Headers.RoundTrip.{
  read_option, destination_tuple-connect_request, IsValue-or_IsRefused, refused_ends,
}
use plug2proxy.Http2.Accept.{
  Incoming, request, incoming_error, incoming_end, Http2OutTunnel, accepted_destination, accept,
  accepts,
}

module _ (http : HttpExternals) (laws : HttpLaws http) where
  -- The requests of these destinations, to each of which a response is sent.
  abbrev pub IsSent : List Destination → List Incoming → Type 0
  IsSent [] [] = Unit
  IsSent ((address, name, tag) ∷ destinations) (request headers true ∷ incoming) =
      (connect_request http address name tag ≡ some headers) × IsSent destinations incoming
  IsSent _ _ = ⊥

  -- A destination as far as it can be read: without flow information, which the text does not have.
  abbrev pub readable : Destination → Destination
  readable (address, name, tag) =
      (printed_address address, read_option http name, read_option http tag)

  destination_tuple_sent :
      (address : SocketAddr) (name tag : Option Text) (headers : HeaderMap)
      → connect_request http address name tag ≡ some headers
      → destination_tuple http headers ≡ some (readable (address, name, tag))
  destination_tuple_sent address name tag headers h =
      elim (IsValue-or_IsRefused http laws address name) [
        | inr r ↦ cc (sym (refused_ends http laws address name tag (inl r)) ∙ h)
        | inl v ↦ elim (IsValue-or_IsRefused http laws address tag) [
          | inr r ↦ cc (sym (refused_ends http laws address name tag (inr r)) ∙ h)
          | inl w ↦
              let (headers', e, f) =
                destination_tuple-connect_request http laws address name tag v w in
              subst (λ z. destination_tuple http z ≡ some (readable (address, name, tag)))
                (some-eq-some (sym e ∙ h)) f
        ]
      ]

  -- Nothing more, or something that is no stream with an address.
  abbrev pub IsStop : List Incoming → Type 0
  IsStop [] = Unit
  IsStop (incoming ∷ more) = accepted_destination http incoming ≡ none

  accepts_good :
      (self : Http2OutTunnel) (incoming : Incoming) (more : List Incoming)
      (destination : Destination)
      → accepted_destination http incoming ≡ some destination
      → accepts http self (incoming ∷ more) ≡ stream destination ∷ accepts http self more
  unfolding accepts accept
  accepts_good self incoming more destination e = rw (e, accepts, accept)

  accepts_bad :
      (self : Http2OutTunnel) (incoming : Incoming) (more : List Incoming)
      → accepted_destination http incoming ≡ none
      → accepts http self (incoming ∷ more)
        ≡ failed true ∷ accepts http (record { closed = true }) more
  unfolding accepts accept
  accepts_bad self incoming more e = rw (e, accepts, accept)

  stopped :
      (outputs : List (Text × AnyOutput)) (self : Http2OutTunnel) (rest : List Incoming)
      → IsStop rest
      → handle_tunnel outputs (accepts http self rest) ≡ ([], is_empty rest)
  unfolding accepts handle_tunnel
  stopped outputs self [] h = refl
  stopped outputs self (incoming ∷ more) h =
      ap (handle_tunnel outputs) (accepts_bad self incoming more h)

  -- The streams that an IN opens, and to whose requests a response is sent, are served by the OUT in their
  -- order, each for its address without the flow information of IPv6 and the name and the tag as
  -- far as they can be read, through the output for that tag; after that the tunnel is served on if nothing more comes, and not any more where
  -- the next is an error, the end of the connection, or a request without an address. The conditions are
  -- the laws of header values and addresses.
  pub handle_tunnel-connect_request :
      (configs : List OutOutputConfig) (self : Http2OutTunnel) (destinations : List Destination)
      (incoming rest : List Incoming)
      → IsSent destinations incoming
      → IsStop rest
      → handle_tunnel (output_map configs) (accepts http self (incoming ++ rest)) ≡ (
        map (λ (d : Destination). (readable d, output_for configs (readable d).2)) destinations,
        is_empty rest,
      )
  unfolding accepted_destination handle_tunnel
  handle_tunnel-connect_request configs self [] [] rest h stop =
      stopped (output_map configs) self rest stop
  handle_tunnel-connect_request configs self [] (_ ∷ incoming) rest h stop = absurd h
  handle_tunnel-connect_request configs self ((address, name, tag) ∷ destinations) [] rest h stop =
      absurd h
  handle_tunnel-connect_request configs self ((address, name, tag) ∷ destinations)
        (request headers false ∷ incoming) rest h stop =
      absurd h
  handle_tunnel-connect_request configs self ((address, name, tag) ∷ destinations)
        (incoming_error ∷ incoming) rest h stop =
      absurd h
  handle_tunnel-connect_request configs self ((address, name, tag) ∷ destinations)
        (incoming_end ∷ incoming) rest h stop =
      absurd h
  handle_tunnel-connect_request configs self ((address, name, tag) ∷ destinations)
        (request headers true ∷ incoming) rest h stop =
      ap (handle_tunnel (output_map configs)) (
        accepts_good self (request headers true) (incoming ++ rest) (readable (address, name, tag))
          (destination_tuple_sent address name tag headers h.0))
      ∙ rw (
        handle_tunnel-connect_request configs self destinations incoming rest h.1 stop,
        choose_output-output_map configs (read_option http tag),
      )
