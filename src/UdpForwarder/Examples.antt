-- ===== src/UdpForwarder/Examples.antt =====
-- The forwarder's theorems at a first datagram of a source, its answer, and its end.
use plug2proxy.Prelude.{◌≡◌, refl, true, false, some, ◌==◌, ◌&&◌, if◌then◌else◌}
use plug2proxy.Net.{SocketAddr, socket_address_eq}
use plug2proxy.HashMap
use plug2proxy.UdpForwarder.{
  Association, UdpForwarder, new_forwarder, new_association, with_destination, association_of, send,
  get_associated_destination, response_destination, receive_response, time_out,
}
use plug2proxy.UdpForwarder.Delivery.{
  is_usable, get_associated_destination-send, response_destination-send,
}
use plug2proxy.UdpForwarder.Expired.{send-time_out}
use plug2proxy.UdpForwarder.Steps.{sends, receives, start, next, stay, then_step}
use plug2proxy.UdpForwarder.Sockets.{IsShared, Reachable-IsShared}

abbrev source : SocketAddr
source = SocketAddr.v4 1 1000

abbrev original : SocketAddr
original = SocketAddr.v4 2 53

abbrev real : SocketAddr
real = SocketAddr.v4 3 53

fresh : is_usable new_forwarder source ≡ true
unfolding association_of HashMap.get
fresh = refl

get_associated_destination-send_example :
    get_associated_destination (send new_forwarder source original real true).0 source original ≡ (
      if (source == source) && (original == original)
      then some real
      else get_associated_destination new_forwarder source original)
get_associated_destination-send_example =
    get_associated_destination-send new_forwarder source original real source original true fresh

response_destination-send_example :
    response_destination
      (association_of (send new_forwarder source original real true).0 source)
      real
    ≡ (if (source == source) && (real == real)
        then original
        else response_destination (association_of new_forwarder source) real)
response_destination-send_example =
    response_destination-send new_forwarder source original real source real true fresh

abbrev other : SocketAddr
other = SocketAddr.v4 9 1000

abbrev expired : UdpForwarder
expired = time_out new_forwarder source new_association

-- Another source has sent since.
abbrev later : UdpForwarder
later = (send expired other original real true).0

send-time_out_example : send later source original real true ≡ (later, false)
send-time_out_example =
    send-time_out new_forwarder later source original real new_association true
      (then_step expired later stay (sends expired other original real true) tt)

abbrev association : Association
association = with_destination new_association original real

abbrev after_send : UdpForwarder
after_send = (send new_forwarder source original real true).0

abbrev after_answer : UdpForwarder
after_answer = (receive_response after_send source association real (some 5)).0

associated : HashMap.get source after_send.association_map ≡ some association
unfolding send association_of HashMap.get HashMap.insert
associated = refl

Reachable-IsShared_example : IsShared after_answer
Reachable-IsShared_example = Reachable-IsShared after_answer (
    next after_send after_answer
      (next new_forwarder after_send start (sends new_forwarder source original real true))
      (receives after_send source real association (some 5) associated refl))
