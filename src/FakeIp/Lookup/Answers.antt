-- ===== src/FakeIp/Lookup/Answers.antt =====
-- Answers to queries for addresses: `lookup` (src/lib/in/fake_ip_dns/fake_authority.rs) and `resolve`
-- (fake_ip_resolver.rs) together.
use plug2proxy.Prelude.{
  ℕ, ◌<◌, ◌≡◌, sym, ap, ◌∙◌, subst, ◌⊎◌, inl, inr, Option-cases, some-eq-some, none, some, List, [],
  ◌∷◌, Elem,
}
use plug2proxy.Net.{Text, IpAddr}
use plug2proxy.FakeIp.Table.{Row, Sqlite, SqliteLaws}
use plug2proxy.FakeIp.Authority.{FakeAuthority, assign_fake_ip}
use plug2proxy.FakeIp.Assignment.{IsTable}
use plug2proxy.FakeIp.Resolver.{FakeIpResolver, resolve, resolved, trim_end_dots}
use plug2proxy.FakeIp.RoundTrip.{IsAligned, InRange, net_size, resolve-assign_fake_ip}
use plug2proxy.FakeIp.Lookup.{
  QueryType, a, aaaa, https, other_type, RData, DnsRecord, DnsLookup, Outcome, answered, panicked,
  hidden_address, address_data, find_record, lookup_address, lookup,
}

-- The address that the upstream's answer has for the type, where it is one to hide.
abbrev pub IsUpstream : QueryType → DnsLookup → IpAddr → Type 0
IsUpstream query_type upstream real_ip =
    (r : DnsRecord) × (rdata : RData) × (find_record query_type upstream.records ≡ some r)
    × (r.rdata ≡ some rdata)
    × (hidden_address rdata ≡ some real_ip)

-- The one record that is given for a fake address.
abbrev pub fake_record : Text → QueryType → ℕ → IpAddr → DnsRecord
fake_record name query_type dns_class fake_ip = record {
  name = name;
  rr_type = query_type;
  dns_class = dns_class;
  ttl = 60;
  rdata = some (address_data fake_ip);
}

-- No id is beyond the nets.
abbrev pub IsWithinNets : FakeIpResolver → List Row → Type 0
IsWithinNets resolver rows =
    (r : Row)
    → Elem r rows
    → (r.id < resolver.fake_ipv4_net.size) × (r.id < resolver.fake_ipv6_net.size)

within_net :
    (resolver : FakeIpResolver) (rows : List Row) (real_ip : IpAddr)
    → IsWithinNets resolver rows
    → (r : Row) → Elem r rows
    → r.id < net_size resolver real_ip
within_net resolver rows (IpAddr.v4 bits) h r m = (h r m).0
within_net resolver rows (IpAddr.v6 bits) h r m = (h r m).1

module _ (sqlite : Sqlite) (laws : SqliteLaws sqlite) (self : FakeAuthority)
    (resolver : FakeIpResolver) (clock : ℕ → ℕ) (name : Text) where
  -- The answer is a fake address that stands for the upstream's.
  abbrev pub Hides : QueryType → DnsLookup → DnsLookup → List Row → Type 0
  Hides query_type upstream answer rows =
      (real_ip : IpAddr) × (fake_ip : IpAddr) × (dns_class : ℕ) × IsUpstream query_type upstream
        real_ip
      × (answer.records ≡ fake_record name query_type dns_class fake_ip ∷ [])
      × (resolve sqlite resolver rows fake_ip ≡ resolved real_ip (some (trim_end_dots name)))

  -- The answer is the upstream's, the table is as before, and the upstream has no address to hide.
  abbrev pub Passes : List Row → List Row → QueryType → DnsLookup → DnsLookup → Type 0
  Passes rows rows' query_type upstream answer =
      (answered upstream rows ≡ answered answer rows')
      × ((real_ip : IpAddr) → ¬ IsUpstream query_type upstream real_ip)

  other_hidden :
      (query_type : QueryType) (upstream : DnsLookup) (r : DnsRecord) (rdata : RData)
      → find_record query_type upstream.records ≡ some r
      → r.rdata ≡ some rdata
      → hidden_address rdata ≡ none
      → (real_ip : IpAddr) → ¬ IsUpstream query_type upstream real_ip
  other_hidden query_type upstream r rdata e f g real_ip (r', rdata', e', f', g') =
      let same : r ≡ r' = some-eq-some (sym e ∙ e') in
      let same_data : rdata ≡ rdata' =
        some-eq-some (sym f ∙ ap (λ (r : DnsRecord). r.rdata) same ∙ f') in
      cc (sym g ∙ ap hidden_address same_data ∙ g')

  assigned_answer :
      (rows rows' : List Row) (query_type : QueryType) (upstream answer : DnsLookup) (r : DnsRecord)
      (real_ip : IpAddr)
      → IsAligned self resolver
      → IsTable rows
      → IsWithinNets resolver rows'
      → InRange real_ip
      → IsUpstream query_type upstream real_ip
      → (elim (assign_fake_ip sqlite self rows (clock 0) name real_ip) [
        | none ↦ panicked
        | some (fake_ip, rows') ↦
            answered
              (record {
                name = name;
                query_type = query_type;
                records = fake_record name query_type r.dns_class fake_ip ∷ [];
              })
              rows'
      ])
        ≡ answered answer rows'
      → Hides query_type upstream answer rows'
  assigned_answer rows rows' query_type upstream answer r real_ip al table within fits up h =
      elim (Option-cases (assign_fake_ip sqlite self rows (clock 0) name real_ip)) [
        | inl e ↦ cc (rw e at h)
        | inr ((fake_ip, after), e) ↦
            let h' = rw e at h in
            let same : after ≡ rows' = ap rows_of h' in
            (
              real_ip,
              fake_ip,
              r.dns_class,
              up,
              sym (ap records_of h'),
              resolve-assign_fake_ip sqlite laws self resolver rows rows' (clock 0) name real_ip
                  fake_ip al fits table
                  (subst
                    (λ z.
                      assign_fake_ip sqlite self rows (clock 0) name real_ip ≡ some (fake_ip, z))
                    same e)
                  (within_net resolver rows' real_ip within),
            )
      ]
    where
      rows_of : Outcome → List Row
      rows_of (answered l z) = z
      rows_of _ = []

      records_of : Outcome → List DnsRecord
      records_of (answered l z) = l.records
      records_of _ = []

  lookup_address-Hides :
      (rows rows' : List Row) (query_type : QueryType) (upstream answer : DnsLookup)
      → IsAligned self resolver
      → IsTable rows
      → IsWithinNets resolver rows'
      → ((real_ip : IpAddr) → IsUpstream query_type upstream real_ip → InRange real_ip)
      → lookup_address sqlite self clock name rows query_type upstream ≡ answered answer rows'
      → Passes rows rows' query_type upstream answer ⊎ Hides query_type upstream answer rows'
  unfolding lookup_address
  lookup_address-Hides rows rows' query_type upstream answer al table within fits h =
      elim (Option-cases (find_record query_type upstream.records)) [
        | inl e ↦ inl (rw (e, lookup_address) at h, λ real_ip (r, rdata, f, f1, f2). cc (sym e ∙ f))
        | inr (r, e) ↦ elim (Option-cases r.rdata) [
          | inl f ↦ cc (rw (e, f, lookup_address) at h)
          | inr (rdata, f) ↦ elim (Option-cases (hidden_address rdata)) [
            | inl g ↦
                inl (
                  rw (e, f, g, lookup_address) at h,
                  other_hidden query_type upstream r rdata e f g,
                )
            | inr (real_ip, g) ↦
                let up : IsUpstream query_type upstream real_ip = (r, rdata, e, f, g) in
                inr (
                  assigned_answer rows rows' query_type upstream answer r real_ip al table within
                    (fits real_ip up) up (rw (e, f, g, lookup_address) at h))
          ]
        ]
      ]

  -- A query for an address is answered as by the upstream, with the table as it was, exactly where the
  -- upstream's first record of that type has no address to hide, and else with one record of a fake
  -- address, which the resolver translates back, in the table after, to the address of the
  -- upstream's first record of that type and to the queried name less the dots at its end. Conditions:
  -- the resolver's nets are the authority's, the table keeps its promises, the upstream's address is in
  -- range, and no id in the table after is beyond the nets.
  pub lookup-Hides :
      (rows rows' : List Row) (query_type : QueryType) (upstream answer : DnsLookup)
      → (query_type ≡ a) ⊎ (query_type ≡ aaaa)
      → IsAligned self resolver
      → IsTable rows
      → IsWithinNets resolver rows'
      → ((real_ip : IpAddr) → IsUpstream query_type upstream real_ip → InRange real_ip)
      → lookup sqlite self clock name rows query_type (some upstream) ≡ answered answer rows'
      → Passes rows rows' query_type upstream answer ⊎ Hides query_type upstream answer rows'
  unfolding lookup
  lookup-Hides rows rows' a upstream answer q al table within fits h =
      lookup_address-Hides rows rows' a upstream answer al table within fits h
  lookup-Hides rows rows' aaaa upstream answer q al table within fits h =
      lookup_address-Hides rows rows' aaaa upstream answer al table within fits h
  lookup-Hides rows rows' https upstream answer (inl e) al table within fits h = cc
  lookup-Hides rows rows' https upstream answer (inr e) al table within fits h = cc
  lookup-Hides rows rows' (other_type n) upstream answer (inl e) al table within fits h = cc
  lookup-Hides rows rows' (other_type n) upstream answer (inr e) al table within fits h = cc
