-- ===== src/FakeIp/Lookup.antt =====
-- src/lib/in/fake_ip_dns/fake_authority.rs: `lookup`, which answers a query. What the upstream resolver
-- gives is a parameter; the records are those of the hickory crates, with the fields that are used.
pub mod Answers
pub mod Rewritten
pub mod Hints
mod Examples
use mathlib.Core.Option
use plug2proxy.Prelude.{
  ℕ, ◌+◌, ◌*◌, ◌/◌, ◌^◌, Bool, true, false, ◌||◌, Option, none, some, List, [], ◌∷◌, ◌++◌,
  if◌then◌else◌, nat_beq,
}
use plug2proxy.Net.{Text, IpAddr}
use plug2proxy.FakeIp.Table.{Row, Sqlite}
use plug2proxy.FakeIp.Authority.{FakeAuthority, assign_fake_ip}

-- `RecordType` of a query and of a record.
pub data QueryType : Type 0 where
  a aaaa https : QueryType
  other_type : ℕ → QueryType

abbrev pub query_type_beq : QueryType → QueryType → Bool
query_type_beq a a = true
query_type_beq aaaa aaaa = true
query_type_beq https https = true
query_type_beq (other_type m) (other_type n) = nat_beq m n
query_type_beq _ _ = false

pub data SvcParamKey : Type 0 where
  ipv4_hint_key ipv6_hint_key : SvcParamKey
  other_key : ℕ → SvcParamKey

pub data SvcParamValue : Type 0 where
  ipv4_hint : List ℕ → SvcParamValue
  ipv6_hint : List ℕ → SvcParamValue
  other_value : List ℕ → SvcParamValue

pub record Svcb : Type 0 where
  pub svc_priority : ℕ
  pub target_name : Text
  pub svc_params : List (SvcParamKey × SvcParamValue)

pub data RData : Type 0 where
  a_data : ℕ → RData
  aaaa_data : ℕ → RData
  https_data : Svcb → RData
  other_data : List ℕ → RData

pub record DnsRecord : Type 0 where
  pub name : Text
  pub rr_type : QueryType
  pub dns_class : ℕ
  pub ttl : ℕ
  pub rdata : Option RData

-- `Lookup`: the query and the records.
pub record DnsLookup : Type 0 where
  pub name : Text
  pub query_type : QueryType
  pub records : List DnsRecord

-- `Ipv4Addr::is_private` and `is_loopback`, `Ipv6Addr::is_loopback` of the standard library.
abbrev pub is_private : ℕ → Bool
is_private bits =
    nat_beq (bits / 2 ^ 24) 10
    || nat_beq (bits / 2 ^ 20) (172 * 16 + 1)
    || nat_beq (bits / 2 ^ 16) (192 * 256 + 168)

abbrev pub is_loopback_v4 : ℕ → Bool
is_loopback_v4 bits = nat_beq (bits / 2 ^ 24) 127

abbrev pub is_loopback_v6 : ℕ → Bool
is_loopback_v6 bits = nat_beq bits 1

-- The address that is to be hidden: none where the record passes as it is.
unfoldable pub hidden_v4 : ℕ → Option IpAddr
hidden_v4 bits = if is_private bits || is_loopback_v4 bits then none else some (IpAddr.v4 bits)

unfoldable pub hidden_v6 : ℕ → Option IpAddr
hidden_v6 bits = if is_loopback_v6 bits then none else some (IpAddr.v6 bits)

unfoldable pub hidden_address : RData → Option IpAddr
hidden_address (a_data bits) = hidden_v4 bits
hidden_address (aaaa_data bits) = hidden_v6 bits
hidden_address (https_data svcb) = none
hidden_address (other_data bytes) = none

-- The address of a hint: of the first item, where the value is of the key's kind.
unfoldable pub hint_address : SvcParamKey → SvcParamValue → Option IpAddr
hint_address ipv4_hint_key (ipv4_hint (bits ∷ items)) = hidden_v4 bits
hint_address ipv6_hint_key (ipv6_hint (bits ∷ items)) = hidden_v6 bits
hint_address _ _ = none

abbrev pub is_hint : SvcParamKey → Bool
is_hint ipv4_hint_key = true
is_hint ipv6_hint_key = true
is_hint (other_key k) = false

abbrev pub address_data : IpAddr → RData
address_data (IpAddr.v4 bits) = a_data bits
address_data (IpAddr.v6 bits) = aaaa_data bits

abbrev pub hint_value : IpAddr → SvcParamValue
hint_value (IpAddr.v4 bits) = ipv4_hint (bits ∷ [])
hint_value (IpAddr.v6 bits) = ipv6_hint (bits ∷ [])

unfoldable pub find_record : QueryType → List DnsRecord → Option DnsRecord
find_record query_type [] = none
find_record query_type (head ∷ records) =
    let rest = find_record query_type records in
    if query_type_beq head.rr_type query_type then some head else rest

-- What a lookup gives, with the table after: an answer, the error of the upstream, or a panic.
pub data Outcome : Type 0 where
  answered : DnsLookup → List Row → Outcome
  upstream_failed : List Row → Outcome
  panicked : Outcome

-- How the loop over the parameters ends: all are done, or the upstream's answer is to be given, or a
-- panic.
pub data HintsEnd : Type 0 where
  done : List (SvcParamKey × SvcParamValue) → List Row → HintsEnd
  forwarded : List Row → HintsEnd
  hints_panicked : HintsEnd

-- `clock` is the time of each assignment.
module _ (sqlite : Sqlite) (self : FakeAuthority) (clock : ℕ → ℕ) (name : Text) where
  unfoldable pub hints_loop :
      ℕ
      → List Row
      → List (SvcParamKey × SvcParamValue)
      → List (SvcParamKey × SvcParamValue)
      → HintsEnd
  hints_loop tick rows svc_params [] = done svc_params rows
  hints_loop tick rows svc_params ((key, value) ∷ params) = elim (is_hint key) [
    | false ↦ hints_loop tick rows (svc_params ++ (key, value) ∷ []) params
    | true ↦ elim (hint_address key value) [
      | none ↦ forwarded rows
      | some real_ip ↦ elim (assign_fake_ip sqlite self rows (clock tick) name real_ip) [
        | none ↦ hints_panicked
        | some (fake_ip, rows') ↦
            hints_loop (tick + 1) rows' (svc_params ++ (key, hint_value fake_ip) ∷ []) params
      ]
    ]
  ]

  -- The branch of `A` and `AAAA`.
  unfoldable pub lookup_address : List Row → QueryType → DnsLookup → Outcome
  lookup_address rows query_type upstream = elim (find_record query_type upstream.records) [
    | none ↦ answered upstream rows
    | some upstream_record ↦ elim upstream_record.rdata [
      | none ↦ panicked
      | some rdata ↦ elim (hidden_address rdata) [
        | none ↦ answered upstream rows
        | some real_ip ↦ elim (assign_fake_ip sqlite self rows (clock 0) name real_ip) [
          | none ↦ panicked
          | some (fake_ip, rows') ↦
              answered
                (record {
                  name = name;
                  query_type = query_type;
                  records =
                      record {
                        name = name;
                        rr_type = query_type;
                        dns_class = upstream_record.dns_class;
                        ttl = 60;
                        rdata = some (address_data fake_ip);
                      }
                      ∷ [];
                })
                rows'
        ]
      ]
    ]
  ]

  -- The branch of `HTTPS`.
  unfoldable pub lookup_https : List Row → DnsLookup → Outcome
  lookup_https rows upstream = elim (find_record https upstream.records) [
    | none ↦ answered upstream rows
    | some upstream_record ↦ elim upstream_record.rdata [
      | none ↦ panicked
      | some (https_data svcb) ↦ elim (hints_loop 0 rows [] svcb.svc_params) [
        | hints_panicked ↦ panicked
        | forwarded rows' ↦ answered upstream rows'
        | done svc_params rows' ↦
            answered
              (record {
                name = name;
                query_type = https;
                records =
                    record upstream_record {
                      ttl = 60;
                      rdata = some (https_data (record svcb { svc_params = svc_params }));
                    }
                    ∷ [];
              })
              rows'
      ]
      | some (a_data bits) ↦ answered upstream rows
      | some (aaaa_data bits) ↦ answered upstream rows
      | some (other_data bytes) ↦ answered upstream rows
    ]
  ]

  -- `upstream` is what the resolver gives for the name and the type: `none` is an error.
  unfoldable pub lookup : List Row → QueryType → Option DnsLookup → Outcome
  lookup rows query_type none = upstream_failed rows
  lookup rows a (some upstream) = lookup_address rows a upstream
  lookup rows aaaa (some upstream) = lookup_address rows aaaa upstream
  lookup rows https (some upstream) = lookup_https rows upstream
  lookup rows (other_type n) (some upstream) = answered upstream rows
