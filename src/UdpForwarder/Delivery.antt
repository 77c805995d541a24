-- ===== src/UdpForwarder/Delivery.antt =====
-- Where datagrams and their answers go (src/lib/in/udp_forwarder.rs).
use plug2proxy.Prelude.{
  ◌≡◌, refl, sym, ◌∙◌, ap, ◌==◌, ==_eq, Bool, true, Bool-cases, Option-cases, some, inl, inr,
  if_true, if◌then◌else◌, ◌&&◌,
}
use plug2proxy.Net.{SocketAddr, socket_address_eq}
use plug2proxy.HashMap
use plug2proxy.HashMap.{get-insert}
use plug2proxy.UdpForwarder.{
  UdpForwarder, with_destination, association_of, send, get_associated_destination,
  response_destination,
}

-- Whether the source may send: it has no association, or one whose task runs.
abbrev pub is_usable : UdpForwarder → SocketAddr → Bool
is_usable self source = (association_of self source).is_open

-- The association of a source after a send.
get-send :
    (self : UdpForwarder) (source original real source' : SocketAddr) (sent : Bool)
    → is_usable self source ≡ true
    → HashMap.get source' (send self source original real sent).0.association_map ≡ (
        if source == source'
        then some (with_destination (association_of self source) original real)
        else HashMap.get source' self.association_map)
unfolding send
get-send self source original real source' sent usable =
    ap (λ (r : UdpForwarder × Bool). HashMap.get source' r.0.association_map) (if_true _ _ usable)
    ∙ get-insert source source' (with_destination (association_of self source) original real)
        self.association_map

-- What is known of a destination of the source's association, if there is one.
get_associated_destination-association_of :
    (self : UdpForwarder) (source original : SocketAddr)
    → get_associated_destination self source original
      ≡ HashMap.get original (association_of self source).original_to_real_destination_map
unfolding get_associated_destination association_of HashMap.get
get_associated_destination-association_of self source original =
    elim (Option-cases (HashMap.get source self.association_map)) [
      | inl n ↦ rw (n, get_associated_destination) refl
      | inr (a, n) ↦ rw (n, get_associated_destination) refl
    ]

association_of-send :
    (self : UdpForwarder) (source original real source' : SocketAddr) (sent : Bool)
    → is_usable self source ≡ true
    → association_of (send self source original real sent).0 source' ≡ (
        if source == source'
        then with_destination (association_of self source) original real
        else association_of self source')
unfolding association_of
association_of-send self source original real source' sent usable =
    rw (get-send self source original real source' sent usable)
      (elim (Bool-cases (source == source')) [ inl e ↦ rw e refl | inr e ↦ rw e refl ])

-- A send that does not fail makes its real destination that of its source and original destination, and
-- changes no other. The condition is that the association's task runs.
pub get_associated_destination-send :
    (self : UdpForwarder) (source original real source' original' : SocketAddr) (sent : Bool)
    → is_usable self source ≡ true
    → get_associated_destination (send self source original real sent).0 source' original' ≡ (
        if (source == source') && (original == original')
        then some real
        else get_associated_destination self source' original')
get_associated_destination-send self source original real source' original' sent usable =
    rw
      (
        get_associated_destination-association_of (send self source original real sent).0 source'
            original',
        get_associated_destination-association_of self source' original',
        association_of-send self source original real source' sent usable,
      )
      (elim (Bool-cases (source == source')) [
        | inr e ↦ rw e refl
        | inl e ↦
            rw
              (
                e,
                sym (==_eq source source' e),
                get-insert original original' real
                    (association_of self source).original_to_real_destination_map,
              )
              refl
      ])

-- A datagram from a real destination goes to its source in the name of the original destination that
-- the source last sent to it under, or of the real one where the source did not: a send that does not
-- fail sets the name for its source and real destination, and changes no other. The condition is that
-- the association's task runs.
pub response_destination-send :
    (self : UdpForwarder) (source original real source' real' : SocketAddr) (sent : Bool)
    → is_usable self source ≡ true
    → response_destination (association_of (send self source original real sent).0 source') real'
      ≡ (if (source == source') && (real == real')
          then original
          else response_destination (association_of self source') real')
unfolding response_destination
response_destination-send self source original real source' real' sent usable =
    rw (association_of-send self source original real source' sent usable)
      (elim (Bool-cases (source == source')) [
        | inr e ↦ rw e refl
        | inl e ↦
            rw
              (
                e,
                sym (==_eq source source' e),
                get-insert real real' original
                    (association_of self source).real_to_original_destination_map,
              )
              (elim (Bool-cases (real == real')) [ inl q ↦ rw q refl | inr q ↦ rw q refl ])
      ])
