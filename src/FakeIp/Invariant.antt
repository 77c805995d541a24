-- ===== src/FakeIp/Invariant.antt =====
-- What assignments (src/lib/in/fake_ip_dns/fake_authority.rs) keep: the table's promises, and the
-- records of other names until they expire.
use plug2proxy.Prelude.{
  ℕ, ◌^◌, ◌<◌, ◌≡◌, ◌≢◌, sym, ap, ◌∙◌, subst, inl, inr, some, List, arith, Elem,
}
use plug2proxy.Net.{Text, IpAddr}
use plug2proxy.FakeIp.Table.{Row, Sqlite, SqliteLaws}
use plug2proxy.FakeIp.Authority.{FakeAuthority, assign_fake_ip, record_type}
use plug2proxy.FakeIp.Assignment.{IsTable, Assignment, assign-Assignment}

module _ {rows rows' : List Row} {now : ℕ} {new : Row} (t : Assignment rows rows' now new) where
  Assignment-ids : IsTable rows → (q r : Row) → Elem q rows' → Elem r rows' → q.id ≡ r.id → q ≡ r
  Assignment-ids table q r m k e = elim (t.only q m) [
    | inl p ↦ elim (t.only r k) [
      | inl p' ↦ p ∙ sym p'
      | inr (k', n') ↦ absurd (n' (sym e ∙ ap (λ (q : Row). q.id) p))
    ]
    | inr (m', n) ↦ elim (t.only r k) [
      | inl p' ↦ absurd (n (e ∙ ap (λ (q : Row). q.id) p'))
      | inr (k', n') ↦ table.ids q r m' k' e
    ]
  ]

  Assignment-names :
      IsTable rows
      → (q r : Row) → Elem q rows'
      → Elem r rows'
      → q.type ≡ r.type
      → q.name ≡ r.name
      → q ≡ r
  Assignment-names table q r m k ty nm = elim (t.only q m) [
    | inl p ↦ elim (t.only r k) [
      | inl p' ↦ p ∙ sym p'
      | inr (k', n') ↦ absurd (
          t.fresh_name r k' n' (sym ty ∙ ap (λ (q : Row). q.type) p)
            (sym nm ∙ ap (λ (q : Row). q.name) p))
    ]
    | inr (m', n) ↦ elim (t.only r k) [
      | inl p' ↦ absurd (
          t.fresh_name q m' n (ty ∙ ap (λ (q : Row). q.type) p') (nm ∙ ap (λ (q : Row). q.name) p'))
      | inr (k', n') ↦ table.names q r m' k' ty nm
    ]
  ]

  Assignment-range : IsTable rows → (r : Row) → Elem r rows' → r.id < 2 ^ 63
  Assignment-range table r m = elim (t.only r m) [
    | inl p ↦ subst (λ (q : Row). q.id < 2 ^ 63) (sym p) t.in_range
    | inr (m', n) ↦ table.in_range r m'
  ]

  pub Assignment-IsTable : IsTable rows → IsTable rows'
  Assignment-IsTable table = record {
    ids = Assignment-ids table;
    names = Assignment-names table;
    in_range = Assignment-range table;
  }

  pub Assignment-keeps :
      (q : Row)
      → Elem q rows
      → now < q.expires_at
      → ¬ ((q.type ≡ new.type) × (q.name ≡ new.name))
      → (q.id ≢ new.id) × Elem q rows'
  Assignment-keeps q m live other = (differs, t.kept q m differs)
    where
      differs : q.id ≢ new.id
      differs e = elim (t.replaced q m e) [ inl same ↦ other same | inr expired ↦ omega arith ]

module _ (sqlite : Sqlite) (laws : SqliteLaws sqlite) (self : FakeAuthority) where
  -- An assignment that does not panic keeps the table's promises: one row for an id, one row for a
  -- type and a name, ids that fit an `i64`.
  pub assign-IsTable :
      (rows rows' : List Row) (now : ℕ) (name : Text) (real_ip fake_ip : IpAddr)
      → IsTable rows
      → assign_fake_ip sqlite self rows now name real_ip ≡ some (fake_ip, rows')
      → IsTable rows'
  assign-IsTable rows rows' now name real_ip fake_ip table h =
      let (id, e, t) =
        assign-Assignment sqlite laws self rows rows' now name real_ip fake_ip table h in
      Assignment-IsTable t table

  -- A record that has not expired, of another type or name, is still in the table as it was after an
  -- assignment.
  pub assign-keeps :
      (rows rows' : List Row) (now : ℕ) (name : Text) (real_ip fake_ip : IpAddr) (q : Row)
      → IsTable rows
      → assign_fake_ip sqlite self rows now name real_ip ≡ some (fake_ip, rows')
      → Elem q rows
      → now < q.expires_at
      → ¬ ((q.type ≡ record_type real_ip) × (q.name ≡ name))
      → Elem q rows'
  assign-keeps rows rows' now name real_ip fake_ip q table h m live other =
      let (id, e, t) =
        assign-Assignment sqlite laws self rows rows' now name real_ip fake_ip table h in
      (Assignment-keeps t q m live other).1
