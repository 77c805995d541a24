-- ===== src/UdpForwarder/Steps.antt =====
-- The steps of the UDP forwarder in any interleaving (src/lib/in/udp_forwarder.rs).
use plug2proxy.Prelude.{◌≡◌, Bool, true, false, Option, some, ℕ, ◌==◌, ◌&&◌, ◌⊎◌}
use plug2proxy.Net.{SocketAddr, socket_address_eq}
use plug2proxy.HashMap
use plug2proxy.UdpForwarder.{
  Association, UdpForwarder, new_forwarder, send, receive_response, time_out, remove_association,
  retain_held,
}

-- What can happen. Only a task that runs receives and times out, and the clean-up waits for its
-- end; its two halves may have other steps between them.
pub data Step : UdpForwarder → UdpForwarder → Type 0 where
  sends :
      (self : UdpForwarder) (source original real : SocketAddr) (sent : Bool)
      → Step self (send self source original real sent).0
  receives :
      (self : UdpForwarder) (source real : SocketAddr) (association : Association)
      (bound : Option ℕ)
      → HashMap.get source self.association_map ≡ some association
      → association.is_open ≡ true
      → Step self (receive_response self source association real bound).0
  times_out :
      (self : UdpForwarder) (source : SocketAddr) (association : Association)
      → HashMap.get source self.association_map ≡ some association
      → association.is_open ≡ true
      → Step self (time_out self source association)
  removes :
      (self : UdpForwarder) (source : SocketAddr) (association : Association)
      → HashMap.get source self.association_map ≡ some association
      → association.is_open ≡ false
      → Step self (remove_association self source)
  retains : (self : UdpForwarder) → Step self (retain_held self)

pub data Reachable : UdpForwarder → Type 0 where
  start : Reachable new_forwarder
  next : (before after : UdpForwarder) → Reachable before → Step before after → Reachable after

-- Any number of steps, each of which fits the condition.
pub data Steps (P : (before after : UdpForwarder) → Step before after → Type 0)
    (begin : UdpForwarder) : UdpForwarder → Type 0 where
  stay : Steps P begin begin
  then_step :
      (before after : UdpForwarder)
      → Steps P begin before
      → (step : Step before after) → P before after step
      → Steps P begin after

-- A step that does not remove the association of the source.
abbrev pub IsKeeping : SocketAddr → (before after : UdpForwarder) → Step before after → Type 0
IsKeeping source before after (sends self s original real sent) = Unit
IsKeeping source before after (receives self s real a bound present live) = Unit
IsKeeping source before after (times_out self s a present live) = Unit
IsKeeping source before after (removes self s a present done) = s == source ≡ false
IsKeeping source before after (retains self) = Unit

-- A step that does not remove the association of the source, and sends nothing from it under the original
-- destination but to the real one.
abbrev pub IsConstant :
    SocketAddr
    → SocketAddr
    → SocketAddr
    → (before after : UdpForwarder) → Step before after
    → Type 0
IsConstant source original real before after (sends self s o r sent) =
    ((s == source) && (o == original) ≡ false) ⊎ (r ≡ real)
IsConstant source original real before after (receives self s r a bound present live) = Unit
IsConstant source original real before after (times_out self s a present live) = Unit
IsConstant source original real before after (removes self s a present done) = s == source ≡ false
IsConstant source original real before after (retains self) = Unit
