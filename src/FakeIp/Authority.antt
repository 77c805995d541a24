-- ===== src/FakeIp/Authority.antt =====
-- src/lib/in/fake_ip_dns/fake_authority.rs: `assign_fake_ip` and `convert_id_to_fake_ip`. The mutex
-- on the connection is held through the whole assignment.
use plug2proxy.Prelude.{ℕ, ◌+◌, ◌*◌, ◌%◌, ◌^◌, Option, none, some, List}
use plug2proxy.Net.{Text, IpAddr}
use plug2proxy.Tunnel.Bytes.{to_be_bytes}
use plug2proxy.FakeIp.Table.{RecordType, a, aaaa, Row, Sqlite}

abbrev pub day_in_ms : ℕ
day_in_ms = 86_400_000

abbrev pub fake_ip_expiration_time_in_ms : ℕ
fake_ip_expiration_time_in_ms = day_in_ms * 7

pub record FakeAuthority : Type 0 where
  pub fake_ip_v4_start : ℕ
  pub fake_ip_v6_start : ℕ

-- 198.18.0.0 and 2001:db8::, as `FakeAuthority::new` sets them.
abbrev pub authority : FakeAuthority
authority = record {
  fake_ip_v4_start = ((198 * 256 + 18) * 256 + 0) * 256 + 0;
  fake_ip_v6_start = (0x2001 * 65536 + 0x0db8) * 2 ^ 96;
}

-- "A" or "AAAA", and the octets.
abbrev pub record_type : IpAddr → RecordType
record_type (IpAddr.v4 bits) = a
record_type (IpAddr.v6 bits) = aaaa

unfoldable pub real_ip_octets : IpAddr → List ℕ
real_ip_octets (IpAddr.v4 bits) = to_be_bytes 4 bits
real_ip_octets (IpAddr.v6 bits) = to_be_bytes 16 bits

-- `id as u32` and `id as u128` of an id that is not negative, and sums that wrap, as in a release
-- build.
unfoldable pub convert_id_to_fake_ip : FakeAuthority → ℕ → IpAddr → IpAddr
convert_id_to_fake_ip self id (IpAddr.v4 bits) =
    IpAddr.v4 ((self.fake_ip_v4_start + id % 2 ^ 32) % 2 ^ 32)
convert_id_to_fake_ip self id (IpAddr.v6 bits) = IpAddr.v6 ((self.fake_ip_v6_start + id) % 2 ^ 128)

module _ (sqlite : Sqlite) (self : FakeAuthority) where
  -- The fake address and the table after; `none` is the panic of an insertion that fails.
  unfoldable pub assign_fake_ip : List Row → ℕ → Text → IpAddr → Option (IpAddr × List Row)
  assign_fake_ip rows now name real_ip =
      let expires_at = now + fake_ip_expiration_time_in_ms in
      elim (sqlite.select_named (record_type real_ip) name rows) [
        | some id ↦ some (
          convert_id_to_fake_ip self id real_ip,
          sqlite.update id
              (λ row. record row { real_ip = real_ip_octets real_ip; expires_at = expires_at })
              rows,
        )
        | none ↦ elim (sqlite.select_expired now rows) [
          | some id ↦ some (
            convert_id_to_fake_ip self id real_ip,
            sqlite.update id
                (λ row. record row {
                  type = record_type real_ip;
                  name = name;
                  real_ip = real_ip_octets real_ip;
                  expires_at = expires_at;
                })
                rows,
          )
          | none ↦
              elim (sqlite.insert
                (λ id. record {
                  id = id;
                  type = record_type real_ip;
                  name = name;
                  real_ip = real_ip_octets real_ip;
                  expires_at = expires_at;
                })
                rows) [
                  | none ↦ none
                  | some (id, rows') ↦ some (convert_id_to_fake_ip self id real_ip, rows')
                ]
        ]
      ]
