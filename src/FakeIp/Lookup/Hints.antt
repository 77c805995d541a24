-- ===== src/FakeIp/Lookup/Hints.antt =====
-- The address hints of HTTPS records: `lookup` (src/lib/in/fake_ip_dns/fake_authority.rs).
use plug2proxy.Prelude.{
  ℕ, ◌≡◌, sym, ap, subst, ◌⊎◌, inl, inr, Option-cases, some-eq-some, Option, none, some, List, [],
  ◌∷◌,
}
use plug2proxy.Net.{Text}
use plug2proxy.FakeIp.Table.{Row, Sqlite, SqliteLaws}
use plug2proxy.FakeIp.Authority.{FakeAuthority}
use plug2proxy.FakeIp.Assignment.{IsTable}
use plug2proxy.FakeIp.Lookup.{
  Svcb, RData, https_data, a_data, aaaa_data, other_data, https, DnsRecord, DnsLookup, Outcome,
  answered, find_record, hints_loop, lookup_https, lookup,
}
use plug2proxy.FakeIp.Lookup.Rewritten.{
  SvcParam, Rewritten, IsOpen, HintsEnd-cases, hints_loop-Added, hints_loop-HasOpenHint,
}

-- The answer is the upstream's, which has no HTTPS record, or one that is open as it stands.
abbrev pub PassesHints : DnsLookup → DnsLookup → Type 0
PassesHints upstream answer =
    (answer ≡ upstream)
    × ((find_record https upstream.records ≡ none)
        ⊎ ((r : DnsRecord) × (rdata : RData) × (find_record https upstream.records ≡ some r)
            × (r.rdata ≡ some rdata)
            × IsOpen rdata))

module _ (sqlite : Sqlite) (laws : SqliteLaws sqlite) (self : FakeAuthority) (clock : ℕ → ℕ)
    (name : Text) where
  -- The answer has the upstream's HTTPS record with its hints rewritten.
  abbrev pub HidesHints : List Row → List Row → DnsLookup → DnsLookup → Type 0
  HidesHints rows rows' upstream answer =
      (r : DnsRecord) × (svcb : Svcb) × (svc_params : List SvcParam) × (find_record https
          upstream.records
        ≡ some r)
      × (r.rdata ≡ some (https_data svcb))
      × (answer.records
          ≡ record r {
            ttl = 60;
            rdata = some (https_data (record svcb { svc_params = svc_params }));
          }
            ∷ [])
      × Rewritten self clock name rows rows' svcb.svc_params svc_params

  answer_of : Outcome → Option DnsLookup
  answer_of (answered l z) = some l
  answer_of _ = none

  table_of : Outcome → List Row
  table_of (answered l z) = z
  table_of _ = []

  -- A query for an HTTPS record is answered as by the upstream only where the upstream has no HTTPS record,
  -- or one that is no such data or has a hint without an address to hide; and else with the upstream's
  -- record in which each address hint has become the one fake address of the row that the table was
  -- given for the hint's first address and the name, and the other parameters, their number and their order
  -- are unchanged. The condition is that the table keeps its promises.
  pub lookup-HidesHints :
      (rows rows' : List Row) (upstream answer : DnsLookup)
      → IsTable rows
      → lookup sqlite self clock name rows https (some upstream) ≡ answered answer rows'
      → PassesHints upstream answer ⊎ HidesHints rows rows' upstream answer
  unfolding lookup lookup_https answer_of table_of
  lookup-HidesHints rows rows' upstream answer table h =
      elim (Option-cases (find_record https upstream.records)) [
        | inl e ↦ inl (sym (same (rw (e, lookup_https) at h)), inl e)
        | inr (r, e) ↦ elim (Option-cases r.rdata) [
          | inl f ↦ cc (rw (e, f, lookup_https) at h)
          | inr (rdata, f) ↦ by_data r e rdata f
        ]
      ]
    where
      same : {l : DnsLookup} {z : List Row} → answered l z ≡ answered answer rows' → l ≡ answer
      same h = some-eq-some (ap answer_of h)

      by_data :
          (r : DnsRecord)
          → find_record https upstream.records ≡ some r
          → (rdata : RData) → r.rdata ≡ some rdata
          → PassesHints upstream answer ⊎ HidesHints rows rows' upstream answer
      by_data r e (a_data bits) f =
          inl (sym (same (rw (e, f, lookup_https) at h)), inr (r, a_data bits, e, f, tt))
      by_data r e (aaaa_data bits) f =
          inl (sym (same (rw (e, f, lookup_https) at h)), inr (r, aaaa_data bits, e, f, tt))
      by_data r e (other_data bits) f =
          inl (sym (same (rw (e, f, lookup_https) at h)), inr (r, other_data bits, e, f, tt))
      by_data r e (https_data svcb) f =
          elim (HintsEnd-cases (hints_loop sqlite self clock name 0 rows [] svcb.svc_params)) [
            | inl g ↦ cc (rw (e, f, g, lookup_https) at h)
            | inr (inl (after, g)) ↦ inl (
              sym (same (rw (e, f, g, lookup_https) at h)),
              inr (
                r,
                https_data svcb,
                e,
                f,
                hints_loop-HasOpenHint sqlite laws self clock name 0 rows after [] svcb.svc_params
                    g,
              ),
            )
            | inr (inr (out, after, g)) ↦
                let (qs, added, rewritten) =
                  hints_loop-Added sqlite laws self clock name 0 rows after [] svcb.svc_params out
                    table g in
                let end = rw (e, f, g, lookup_https) at h in
                inr (
                  r,
                  svcb,
                  out,
                  e,
                  f,
                  ap (λ (l : DnsLookup). l.records) (sym (same end)),
                  subst (λ z. Rewritten self clock name rows z svcb.svc_params out)
                      (ap table_of end)
                      (subst (Rewritten self clock name rows after svcb.svc_params) (sym added)
                        rewritten),
                )
          ]
