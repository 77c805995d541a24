-- ===== src/FakeIp/RoundTrip.antt =====
-- The resolver translates a fake address back (src/lib/in/fake_ip_dns).
use plug2proxy.Prelude.{
  ℕ, pos, ◌+◌, ◌-◌, ◌%◌, ◌^◌, ◌≤◌, ◌<◌, ◌≡◌, refl, sym, ap, ◌∙◌, inl, inr, true, Option-cases,
  pos-injective, Option, some, List, arith, Elem,
}
use plug2proxy.Net.{Text, IpAddr}
use plug2proxy.Tunnel.Bytes.{length-to_be_bytes, from_be_bytes-to_be_bytes}
use plug2proxy.FakeIp.Table.{a, aaaa, Row, Sqlite, SqliteLaws}
use plug2proxy.FakeIp.Authority.{
  FakeAuthority, assign_fake_ip, record_type, real_ip_octets, convert_id_to_fake_ip,
  fake_ip_expiration_time_in_ms,
}
use plug2proxy.FakeIp.Assignment.{IsTable, assigned_row, assign-Assignment}
use plug2proxy.FakeIp.Invariant.{Assignment-IsTable, Assignment-keeps}
use plug2proxy.FakeIp.Resolver.{
  FakeIpResolver, resolved, resolve, type_and_id, decode_real_ip, as_i64, trim_end_dots,
}

-- The address fits its kind.
abbrev pub InRange : IpAddr → Type 0
InRange (IpAddr.v4 bits) = bits < 2 ^ 32
InRange (IpAddr.v6 bits) = bits < 2 ^ 128

as_i64-pos : (n : ℕ) → n < 2 ^ 63 → as_i64 n ≡ pos n
unfolding as_i64
as_i64-pos n h = ground arith

-- The stored octets give the address back.
decode-real_ip_octets :
    (real_ip : IpAddr) (name : Option Text)
    → InRange real_ip
    → decode_real_ip (record_type real_ip) (real_ip_octets real_ip) name ≡ resolved real_ip name
unfolding decode_real_ip real_ip_octets
decode-real_ip_octets (IpAddr.v4 bits) name h =
    rw (length-to_be_bytes 4 bits, from_be_bytes-to_be_bytes 4 bits (omega arith))
decode-real_ip_octets (IpAddr.v6 bits) name h =
    rw (length-to_be_bytes 16 bits, from_be_bytes-to_be_bytes 16 bits (omega arith))

-- The nets of the resolver begin where the authority begins, and lie within their address space.
pub record IsAligned (self : FakeAuthority) (resolver : FakeIpResolver) : Type 0 where
  pub v4_start : resolver.fake_ipv4_net.network ≡ self.fake_ip_v4_start
  pub v4_end : self.fake_ip_v4_start + resolver.fake_ipv4_net.size ≤ 2 ^ 32
  pub v6_start : resolver.fake_ipv6_net.network ≡ self.fake_ip_v6_start
  pub v6_end : self.fake_ip_v6_start + resolver.fake_ipv6_net.size ≤ 2 ^ 128

-- How many addresses the resolver knows of the kind of an address.
abbrev pub net_size : FakeIpResolver → IpAddr → ℕ
net_size resolver (IpAddr.v4 bits) = resolver.fake_ipv4_net.size
net_size resolver (IpAddr.v6 bits) = resolver.fake_ipv6_net.size

found_v4 :
    (resolver : FakeIpResolver) (id bits : ℕ)
    → bits ≡ resolver.fake_ipv4_net.network + id
    → id < resolver.fake_ipv4_net.size
    → id < 2 ^ 63
    → type_and_id resolver (IpAddr.v4 bits) ≡ some (a, pos id)
unfolding type_and_id
found_v4 resolver id bits e h range =
    let within : resolver.fake_ipv4_net.contains bits ≡ true =
      (resolver.fake_ipv4_net.contains_iff bits).1 (omega arith, omega arith) in
    let offset : bits - resolver.fake_ipv4_net.network ≡ id = omega arith in
    rw (within, type_and_id, offset, as_i64-pos id range)

found_v6 :
    (resolver : FakeIpResolver) (id bits : ℕ)
    → bits ≡ resolver.fake_ipv6_net.network + id
    → id < resolver.fake_ipv6_net.size
    → id < 2 ^ 63
    → type_and_id resolver (IpAddr.v6 bits) ≡ some (aaaa, pos id)
unfolding type_and_id
found_v6 resolver id bits e h range =
    let within : resolver.fake_ipv6_net.contains bits ≡ true =
      (resolver.fake_ipv6_net.contains_iff bits).1 (omega arith, omega arith) in
    let offset : bits - resolver.fake_ipv6_net.network ≡ id = omega arith in
    rw (within, type_and_id, offset, as_i64-pos id range)

type_and_id-convert :
    (self : FakeAuthority) (resolver : FakeIpResolver) (id : ℕ) (real_ip : IpAddr)
    → IsAligned self resolver
    → id < net_size resolver real_ip
    → id < 2 ^ 63
    → type_and_id resolver (convert_id_to_fake_ip self id real_ip)
      ≡ some (record_type real_ip, pos id)
unfolding convert_id_to_fake_ip
type_and_id-convert self resolver id (IpAddr.v4 bits) al h range =
    let start = al.v4_start in
    let end = al.v4_end in
    let e : (self.fake_ip_v4_start + id % 2 ^ 32) % 2 ^ 32 ≡ resolver.fake_ipv4_net.network + id =
      omega arith in
    found_v4 resolver id _ e h range
type_and_id-convert self resolver id (IpAddr.v6 bits) al h range =
    let start = al.v6_start in
    let end = al.v6_end in
    let e : (self.fake_ip_v6_start + id) % 2 ^ 128 ≡ resolver.fake_ipv6_net.network + id =
      omega arith in
    found_v6 resolver id _ e h range

module _ (sqlite : Sqlite) (laws : SqliteLaws sqlite) (self : FakeAuthority)
    (resolver : FakeIpResolver) where
  resolve-present :
      (rows : List Row) (now id : ℕ) (name : Text) (real_ip : IpAddr)
      → IsAligned self resolver
      → InRange real_ip
      → IsTable rows
      → Elem (assigned_row id now name real_ip) rows
      → id < net_size resolver real_ip
      → id < 2 ^ 63
      → resolve sqlite resolver rows (convert_id_to_fake_ip self id real_ip)
        ≡ resolved real_ip (some (trim_end_dots name))
  unfolding resolve
  resolve-present rows now id name real_ip al fits table present small range =
      elim (Option-cases (sqlite.select_fake (record_type real_ip) (pos id) rows)) [
        | inl missing ↦
            absurd (laws.fake_none (record_type real_ip) (pos id) rows missing _ present refl refl)
        | inr ((name', octets), found) ↦
            let (r, m, facts) =
              laws.fake_some (record_type real_ip) (pos id) rows name' octets found in
            let (e, ety, ename, eip) = facts in
            let same = table.ids r (assigned_row id now name real_ip) m present (pos-injective e) in
            let enew : name' ≡ name = sym ename ∙ ap (λ (q : Row). q.name) same in
            let eoct : octets ≡ real_ip_octets real_ip =
              sym eip ∙ ap (λ (q : Row). q.real_ip) same in
            rw (
              type_and_id-convert self resolver id real_ip al small range,
              resolve,
              found,
              enew,
              eoct,
              decode-real_ip_octets real_ip (some (trim_end_dots name)) fits,
            )
      ]

  -- Where an assignment does not panic, the fake address it returns resolves, in the table it leaves,
  -- to the address and the name that it was made for, less the name's dots at the end. Conditions: the
  -- nets of the resolver are the authority's, the address fits its kind, the table keeps its promises,
  -- and no id that the table holds afterwards is beyond the net.
  pub resolve-assign_fake_ip :
      (rows rows' : List Row) (now : ℕ) (name : Text) (real_ip fake_ip : IpAddr)
      → IsAligned self resolver
      → InRange real_ip
      → IsTable rows
      → assign_fake_ip sqlite self rows now name real_ip ≡ some (fake_ip, rows')
      → ((r : Row) → Elem r rows' → r.id < net_size resolver real_ip)
      → resolve sqlite resolver rows' fake_ip ≡ resolved real_ip (some (trim_end_dots name))
  resolve-assign_fake_ip rows rows' now name real_ip fake_ip al fits table h small =
      let (id, e, t) =
        assign-Assignment sqlite laws self rows rows' now name real_ip fake_ip table h in
      rw e (
        resolve-present rows' now id name real_ip al fits (Assignment-IsTable t table) t.is_new
          (small _ t.is_new) t.in_range)

  -- A fake address that was assigned still resolves to its address and name, less the name's dots at the
  -- end, after one more assignment of another type or name that comes before it expires. Conditions: the
  -- nets of the resolver are the authority's, the address fits its kind, the table keeps its promises at
  -- first, neither assignment panics, and no id that the table holds after the first is beyond the net.
  pub resolve-assign_other :
      (rows rows' rows'' : List Row) (now later : ℕ) (name other : Text)
      (real_ip other_ip fake_ip other_fake : IpAddr)
      → IsAligned self resolver
      → InRange real_ip
      → IsTable rows
      → assign_fake_ip sqlite self rows now name real_ip ≡ some (fake_ip, rows')
      → assign_fake_ip sqlite self rows' later other other_ip ≡ some (other_fake, rows'')
      → later < now + fake_ip_expiration_time_in_ms
      → ¬ ((record_type real_ip ≡ record_type other_ip) × (name ≡ other))
      → ((r : Row) → Elem r rows' → r.id < net_size resolver real_ip)
      → resolve sqlite resolver rows'' fake_ip ≡ resolved real_ip (some (trim_end_dots name))
  resolve-assign_other rows rows' rows'' now later name other real_ip other_ip fake_ip other_fake al
        fits table h k live differs small =
      let (id, e, t) =
        assign-Assignment sqlite laws self rows rows' now name real_ip fake_ip table h in
      let table' = Assignment-IsTable t table in
      let (id', e', t') =
        assign-Assignment sqlite laws self rows' rows'' later other other_ip other_fake table' k in
      let kept = (Assignment-keeps t' _ t.is_new live differs).1 in
      rw e (
        resolve-present rows'' now id name real_ip al fits (Assignment-IsTable t' table') kept
          (small _ t.is_new) t.in_range)
