-- ===== src/Net.antt =====
-- Addresses and texts of the standard library, as the program uses them. A text is the list of its
-- UTF-8 bytes; an address is its bits, with the range kept where a statement needs it.
use plug2proxy.Prelude.{Eq, ℕ, List, Bool, true, false, ◌&&◌, ◌≡◌, ◌↔◌, nat_beq, nat_beq_iff, arith}

abbrev pub Text : Type 0
Text = List ℕ

pub data IpAddr : Type 0 where
  v4 : ℕ → IpAddr
  v6 : ℕ → IpAddr

-- The fields of `SocketAddrV6` are the address, the port, the flow information and the scope.
pub data SocketAddr : Type 0 where
  v4 : ℕ → ℕ → SocketAddr
  v6 : ℕ → ℕ → ℕ → ℕ → SocketAddr

unfoldable pub ip : SocketAddr → IpAddr
ip (SocketAddr.v4 bits port) = IpAddr.v4 bits
ip (SocketAddr.v6 bits port flowinfo scope) = IpAddr.v6 bits

unfoldable pub port : SocketAddr → ℕ
port (SocketAddr.v4 bits p) = p
port (SocketAddr.v6 bits p flowinfo scope) = p

-- The derived `PartialEq`.
abbrev pub socket_address_beq : SocketAddr → SocketAddr → Bool
socket_address_beq (SocketAddr.v4 bits port) (SocketAddr.v4 bits' port') =
    nat_beq bits bits' && nat_beq port port'
socket_address_beq (SocketAddr.v6 bits port flow scope) (SocketAddr.v6 bits' port' flow' scope') =
    nat_beq bits bits' && (nat_beq port port' && (nat_beq flow flow' && nat_beq scope scope'))
socket_address_beq _ _ = false

pub socket_address_beq_iff : (a b : SocketAddr) → (socket_address_beq a b ≡ true) ↔ (a ≡ b)
socket_address_beq_iff (SocketAddr.v4 bits port) (SocketAddr.v4 bits' port') =
    ground (arith, nat_beq_iff bits bits', nat_beq_iff port port')
socket_address_beq_iff (SocketAddr.v4 bits port) (SocketAddr.v6 bits' port' flow' scope') =
    ground arith
socket_address_beq_iff (SocketAddr.v6 bits port flow scope) (SocketAddr.v4 bits' port') =
    ground arith
socket_address_beq_iff (SocketAddr.v6 bits port flow scope)
      (SocketAddr.v6 bits' port' flow' scope') =
    ground (
      arith,
      nat_beq_iff bits bits',
      nat_beq_iff port port',
      nat_beq_iff flow flow',
      nat_beq_iff scope scope',
    )

instance abbrev pub socket_address_eq : Eq SocketAddr
socket_address_eq = record { beq = socket_address_beq; beq_iff = socket_address_beq_iff }
