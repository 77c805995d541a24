-- ===== src/Proxy/Datagrams.antt =====
-- The datagrams of a source keep their destination (src/lib/in/transparent_proxy.rs and
-- src/lib/in/udp_forwarder.rs together).
use plug2proxy.Prelude.{◌≡◌, ◌⊎◌, refl, ap, ◌∙◌, ==_refl, Bool, true, Option, some, List, inl, inr}
use plug2proxy.Net.{Text, IpAddr, SocketAddr, socket_address_eq}
use plug2proxy.FakeIp.Table.{Row, Sqlite}
use plug2proxy.FakeIp.Resolver.{FakeIpResolver}
use plug2proxy.Route.Rule.{RuleTrait}
use plug2proxy.Route.Router.{Router, Labels}
use plug2proxy.UdpForwarder.{UdpForwarder, get_associated_destination}
use plug2proxy.UdpForwarder.Delivery.{is_usable, get_associated_destination-send}
use plug2proxy.UdpForwarder.Steps.{Steps, IsConstant}
use plug2proxy.UdpForwarder.Associated.{Steps-IsAssociated}
use plug2proxy.Proxy.{
  Resolved, destination, no_destination, aborted, datagram_destination, on_datagram,
}

Resolved-cases :
    {A : Type 0} (r : Resolved A)
    → (r ≡ no_destination) ⊎ ((r ≡ aborted) ⊎ ((a : A) × (r ≡ destination a)))
Resolved-cases no_destination = inl refl
Resolved-cases aborted = inr (inl refl)
Resolved-cases (destination a) = inr (inr (a, refl))

destination-eq : {A : Type 0} {a b : A} → destination a ≡ destination b → a ≡ b
destination-eq e = cc

module _ {R : Type 0} (t : RuleTrait R) (unique : List Labels → List Labels) (sqlite : Sqlite)
    (geolite2_lookup : IpAddr → Option (List Text)) where
  on_datagram-associated :
      (resolver : FakeIpResolver) (rows : List Row) (router : Router R) (forwarder : UdpForwarder)
      (source original real : SocketAddr) (sent : Bool)
      → is_usable forwarder source ≡ true
      → (on_datagram t unique sqlite geolite2_lookup resolver rows router forwarder source original
          sent).1
        ≡ destination real
      → get_associated_destination
          (on_datagram t unique sqlite geolite2_lookup resolver rows router forwarder source
            original sent).0
          source
          original
        ≡ some real
  unfolding on_datagram
  on_datagram-associated resolver rows router forwarder source original real sent usable h =
      elim (Resolved-cases (
        datagram_destination t unique sqlite geolite2_lookup resolver rows router forwarder source
          original)) [
            | inl e ↦ cc (rw (e, on_datagram) at h)
            | inr (inl e) ↦ cc (rw (e, on_datagram) at h)
            | inr (inr (r, e)) ↦
                rw (e, on_datagram)
                  (get_associated_destination-send forwarder source original r source original sent
                      usable
                    ∙ rw (==_refl source, ==_refl original)
                        (ap some (destination-eq (rw (e, on_datagram) at h))))
          ]

  associated-on_datagram :
      (resolver : FakeIpResolver) (rows : List Row) (router : Router R) (forwarder : UdpForwarder)
      (source original real : SocketAddr) (sent : Bool)
      → get_associated_destination forwarder source original ≡ some real
      → (on_datagram t unique sqlite geolite2_lookup resolver rows router forwarder source original
          sent).1
        ≡ destination real
  unfolding on_datagram datagram_destination
  associated-on_datagram resolver rows router forwarder source original real sent e =
      rw (e, on_datagram, datagram_destination) refl

  -- Once a datagram was sent on to a real destination, a later one of the same source and original
  -- destination is resolved to the same one, whatever the table of fake addresses, the router and the nets
  -- have become. Conditions: the association's task runs when the first is sent; and of the forwarder's
  -- steps between the two, which may be any, none removes the source's association, and none sends from the
  -- source under that original destination to another real one.
  pub on_datagram-on_datagram :
      (resolver resolver' : FakeIpResolver) (rows rows' : List Row) (router router' : Router R)
      (forwarder later : UdpForwarder) (source original real : SocketAddr) (sent sent' : Bool)
      → is_usable forwarder source ≡ true
      → (on_datagram t unique sqlite geolite2_lookup resolver rows router forwarder source original
          sent).1
        ≡ destination real
      → Steps
          (IsConstant source original real)
          (on_datagram t unique sqlite geolite2_lookup resolver rows router forwarder source
            original sent).0
          later
      → (on_datagram t unique sqlite geolite2_lookup resolver' rows' router' later source original
          sent').1
        ≡ destination real
  on_datagram-on_datagram resolver resolver' rows rows' router router' forwarder later source
        original real sent sent' usable h steps =
      associated-on_datagram resolver' rows' router' later source original real sent' (
        Steps-IsAssociated source original real
          (on_datagram t unique sqlite geolite2_lookup resolver rows router forwarder source
            original sent).0
          later steps
          (on_datagram-associated resolver rows router forwarder source original real sent usable
            h))
