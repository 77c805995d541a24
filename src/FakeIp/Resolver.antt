-- ===== src/FakeIp/Resolver.antt =====
-- src/lib/in/fake_ip_dns/fake_ip_resolver.rs: `resolve`.
use plug2proxy.Prelude.{
  ℕ, ℤ, pos, negsuc, ◌+◌, ◌-◌, ◌%◌, ◌^◌, ◌≤◌, ◌<◌, ◌≡◌, ◌↔◌, Bool, true, ◌&&◌, Option, none, some,
  List, [], ◌∷◌, if◌then◌else◌, is_empty, nat_beq, ltb, length,
}
use plug2proxy.Net.{Text, IpAddr}
use plug2proxy.Tunnel.Bytes.{from_be_bytes}
use plug2proxy.FakeIp.Table.{RecordType, a, aaaa, Row, Sqlite}

-- `ipnet::Ipv4Net` and `Ipv6Net`: the network address, how many addresses there are, and `contains`,
-- which is documented to test for the range.
pub record FakeNet : Type 0 where
  pub network : ℕ
  pub size : ℕ
  pub contains : ℕ → Bool
  pub contains_iff :
      (bits : ℕ) → (contains bits ≡ true) ↔ ((network ≤ bits) × (bits < network + size))

pub record FakeIpResolver : Type 0 where
  pub fake_ipv4_net : FakeNet
  pub fake_ipv6_net : FakeNet

-- `as i64`: the lowest 64 bits, in two's complement.
unfoldable pub as_i64 : ℕ → ℤ
as_i64 n = let low = n % 2 ^ 64 in if ltb low (2 ^ 63) then pos low else negsuc (2 ^ 64 - 1 - low)

-- `trim_end_matches(".")`.
unfoldable pub trim_end_dots : Text → Text
trim_end_dots [] = []
trim_end_dots (c ∷ text) =
    let rest = trim_end_dots text in if is_empty rest && nat_beq c b'.' then [] else c ∷ rest

-- The address behind a fake one; nothing for a fake address that has no record; or a panic, where
-- the stored octets have another length than the type wants.
pub data Resolution : Type 0 where
  resolved : IpAddr → Option Text → Resolution
  not_found : Resolution
  panicked : Resolution

-- `fake_ip_type_and_id`.
unfoldable pub type_and_id : FakeIpResolver → IpAddr → Option (RecordType × ℤ)
type_and_id self (IpAddr.v4 bits) =
    if self.fake_ipv4_net.contains bits
    then some (a, as_i64 (bits - self.fake_ipv4_net.network))
    else none
type_and_id self (IpAddr.v6 bits) =
    if self.fake_ipv6_net.contains bits
    then some (aaaa, as_i64 (bits - self.fake_ipv6_net.network))
    else none

-- The stored octets as an address of the type.
unfoldable pub decode_real_ip : RecordType → List ℕ → Option Text → Resolution
decode_real_ip a real_ip name =
    if nat_beq (length real_ip) 4
    then resolved (IpAddr.v4 (from_be_bytes real_ip)) name
    else panicked
decode_real_ip aaaa real_ip name =
    if nat_beq (length real_ip) 16
    then resolved (IpAddr.v6 (from_be_bytes real_ip)) name
    else panicked

unfoldable pub resolve : Sqlite → FakeIpResolver → List Row → IpAddr → Resolution
resolve sqlite self rows ip = elim (type_and_id self ip) [
  | none ↦ resolved ip none
  | some (type, id) ↦ elim (sqlite.select_fake type id rows) [
    | none ↦ not_found
    | some (name, real_ip) ↦ decode_real_ip type real_ip (some (trim_end_dots name))
  ]
]
