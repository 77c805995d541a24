-- ===== src/FakeIp/Lookup/Examples.antt =====
-- The answers to a query for an address and to one for an HTTPS record, over the small engine.
use plug2proxy.Prelude.{
  ◌+◌, ◌^◌, ◌<◌, ◌≡◌, refl, ap, ◌∙◌, subst, ◌⊎◌, inl, inr, some-eq-some, some, List, [], ◌∷◌, arith,
}
use plug2proxy.Net.{Text, IpAddr}
use plug2proxy.Tunnel.Bytes.{to_be_bytes}
use plug2proxy.FakeIp.Table.{Row}
use plug2proxy.FakeIp.Authority.{authority, assign_fake_ip, real_ip_octets, convert_id_to_fake_ip}
use plug2proxy.FakeIp.Assignment.{IsTable, assigned_row}
use plug2proxy.FakeIp.RoundTrip.{IsAligned, InRange}
use plug2proxy.FakeIp.Engine.{engine, engine_laws, find, next_id, resolver}
use plug2proxy.FakeIp.Lookup.{
  a, https, a_data, https_data, ipv4_hint_key, ipv4_hint, other_key, other_value, DnsRecord,
  DnsLookup, Svcb, find_record, hidden_v4, hidden_address, hint_address, hints_loop, lookup_address,
  lookup_https, lookup, answered,
}
use plug2proxy.FakeIp.Lookup.Answers.{
  fake_record, IsWithinNets, IsUpstream, Passes, Hides, lookup-Hides,
}
use plug2proxy.FakeIp.Lookup.Hints.{PassesHints, HidesHints, lookup-HidesHints}

aligned : IsAligned authority resolver
aligned = record { v4_start = refl; v4_end = omega arith; v6_start = refl; v6_end = omega arith }

empty_IsTable : IsTable []
empty_IsTable = record {
  ids = λ q r m. absurd m;
  names = λ q r m. absurd m;
  in_range = λ r m. absurd m;
}

abbrev name : Text
name = 65 ∷ b'.' ∷ []

abbrev real_ip : IpAddr
real_ip = IpAddr.v4 9

abbrev fake : IpAddr
fake = IpAddr.v4 (authority.fake_ip_v4_start + 1)

abbrev rows : List Row
rows = assigned_row 1 0 name real_ip ∷ []

abbrev upstream_record : DnsRecord
upstream_record = record {
  name = name;
  rr_type = a;
  dns_class = 1;
  ttl = 300;
  rdata = some (a_data 9);
}

abbrev upstream : DnsLookup
upstream = record { name = name; query_type = a; records = upstream_record ∷ [] }

abbrev answer : DnsLookup
answer = record { name = name; query_type = a; records = fake_record name a 1 fake ∷ [] }

looked_up : lookup engine authority (λ n. 0) name [] a (some upstream) ≡ answered answer rows
unfolding lookup lookup_address find_record hidden_address hidden_v4 assign_fake_ip find next_id
    convert_id_to_fake_ip real_ip_octets to_be_bytes
looked_up = refl

within : IsWithinNets resolver rows
within r (inl e) =
    subst (λ (q : Row). (q.id < 2 ^ 17) × (q.id < 2 ^ 96)) e (omega arith, omega arith)
within r (inr m) = absurd m

fits : (ip : IpAddr) → IsUpstream a upstream ip → InRange ip
unfolding find_record hidden_address hidden_v4
fits ip (r, rdata, e, f, g) =
    let same : a_data 9 ≡ rdata =
      some-eq-some (ap (λ (r : DnsRecord). r.rdata) (some-eq-some e) ∙ f) in
    subst InRange (some-eq-some (ap hidden_address same ∙ g)) (omega arith)

lookup-Hides_example :
    Passes engine engine_laws authority resolver (λ n. 0) name [] rows a upstream answer
    ⊎ Hides engine engine_laws authority resolver (λ n. 0) name a upstream answer rows
lookup-Hides_example =
    lookup-Hides engine engine_laws authority resolver (λ n. 0) name [] rows a upstream answer
      (inl refl) aligned empty_IsTable within fits looked_up

abbrev svcb : Svcb
svcb = record {
  svc_priority = 1;
  target_name = [];
  svc_params = (other_key 1, other_value (2 ∷ [])) ∷ (ipv4_hint_key, ipv4_hint (9 ∷ 10 ∷ [])) ∷ [];
}

abbrev https_record : DnsRecord
https_record = record {
  name = name;
  rr_type = https;
  dns_class = 1;
  ttl = 300;
  rdata = some (https_data svcb);
}

abbrev https_upstream : DnsLookup
https_upstream = record { name = name; query_type = https; records = https_record ∷ [] }

abbrev https_answer : DnsLookup
https_answer = record {
  name = name;
  query_type = https;
  records =
      record {
        name = name;
        rr_type = https;
        dns_class = 1;
        ttl = 60;
        rdata = some (
            https_data (record {
              svc_priority = 1;
              target_name = [];
              svc_params =
                  (other_key 1, other_value (2 ∷ []))
                  ∷ (ipv4_hint_key, ipv4_hint ((authority.fake_ip_v4_start + 1) ∷ []))
                  ∷ [];
            }));
      }
      ∷ [];
}

looked_up_https :
    lookup engine authority (λ n. 0) name [] https (some https_upstream)
    ≡ answered https_answer rows
unfolding lookup lookup_https find_record hints_loop hint_address hidden_v4 assign_fake_ip find
    next_id convert_id_to_fake_ip real_ip_octets to_be_bytes
looked_up_https = refl

lookup-HidesHints_example :
    PassesHints https_upstream https_answer
    ⊎ HidesHints engine engine_laws authority (λ n. 0) name [] rows https_upstream https_answer
lookup-HidesHints_example =
    lookup-HidesHints engine engine_laws authority (λ n. 0) name [] rows https_upstream https_answer
      empty_IsTable looked_up_https
