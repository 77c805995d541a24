-- ===== src/FakeIp/Assignment.antt =====
-- What one call of `assign_fake_ip` (src/lib/in/fake_ip_dns/fake_authority.rs) does to the table,
-- whichever of its three branches it takes.
use plug2proxy.Prelude.{
  ℕ, ◌+◌, ◌^◌, ◌≤◌, ◌<◌, ◌≡◌, ◌≢◌, refl, sym, ap, ◌∙◌, subst, ◌⊎◌, inl, inr, Bool-cases,
  Option-cases, some, List, [], ◌∷◌, ◌++◌, map, if◌then◌else◌, nat_beq, nat_beq_iff, arith,
  some-eq-some, All, All-elem, Elem, Elem-map, map-Elem, Elem-append, Elem-append_left,
  Elem-append_right,
}
use plug2proxy.Net.{Text, IpAddr}
use plug2proxy.FakeIp.Table.{Row, Sqlite, SqliteLaws}
use plug2proxy.FakeIp.Authority.{
  FakeAuthority, assign_fake_ip, convert_id_to_fake_ip, record_type, real_ip_octets,
  fake_ip_expiration_time_in_ms,
}

-- What the table promises: an id stands for one row, and so does a name of a type; ids fit an `i64`.
pub record IsTable (rows : List Row) : Type 0 where
  pub ids : (q r : Row) → Elem q rows → Elem r rows → q.id ≡ r.id → q ≡ r
  pub names : (q r : Row) → Elem q rows → Elem r rows → q.type ≡ r.type → q.name ≡ r.name → q ≡ r
  pub in_range : (r : Row) → Elem r rows → r.id < 2 ^ 63

-- The row that an assignment leaves for its name.
abbrev pub assigned_row : ℕ → ℕ → Text → IpAddr → Row
assigned_row id now name real_ip = record {
  id = id;
  type = record_type real_ip;
  name = name;
  real_ip = real_ip_octets real_ip;
  expires_at = now + fake_ip_expiration_time_in_ms;
}

-- `new` is in the table after; all else is as before, but a row of the same id. That row had the same
-- type and name, or had expired; and no other row has the type and the name.
pub record Assignment (rows rows' : List Row) (now : ℕ) (new : Row) : Type 0 where
  pub is_new : Elem new rows'
  pub only : (q : Row) → Elem q rows' → (q ≡ new) ⊎ (Elem q rows × (q.id ≢ new.id))
  pub kept : (q : Row) → Elem q rows → q.id ≢ new.id → Elem q rows'
  pub fresh_name : (q : Row) → Elem q rows → q.id ≢ new.id → q.type ≡ new.type → q.name ≢ new.name
  pub replaced :
      (q : Row)
      → Elem q rows
      → q.id ≡ new.id
      → ((q.type ≡ new.type) × (q.name ≡ new.name)) ⊎ (q.expires_at ≤ now)
  pub in_range : new.id < 2 ^ 63

abbrev write_row : ℕ → (Row → Row) → Row → Row
write_row id f r = if nat_beq r.id id then f r else r

written : (id : ℕ) (f : Row → Row) (r : Row) → r.id ≡ id → write_row id f r ≡ f r
written id f r e = rw ((nat_beq_iff r.id id).1 e)

unwritten : (id : ℕ) (f : Row → Row) (r : Row) → r.id ≢ id → write_row id f r ≡ r
unwritten id f r n = elim (Bool-cases (nat_beq r.id id)) [
  | inl e ↦ absurd (n ((nat_beq_iff r.id id).0 e))
  | inr e ↦ rw e
]

module _ (rows : List Row) (now : ℕ) (new : Row) (f : Row → Row) (old : Row) (found : Elem old rows)
    (same_id : old.id ≡ new.id) (writes : (q : Row) → Elem q rows → q.id ≡ new.id → f q ≡ new) where
  update-Assignment :
      ((q : Row) → Elem q rows → q.id ≢ new.id → q.type ≡ new.type → q.name ≢ new.name)
      → ((q : Row)
          → Elem q rows
          → q.id ≡ new.id
          → ((q.type ≡ new.type) × (q.name ≡ new.name)) ⊎ (q.expires_at ≤ now))
      → new.id < 2 ^ 63
      → Assignment rows (map (write_row new.id f) rows) now new
  update-Assignment fresh rep range = record {
    is_new =
        subst (λ r. Elem r (map (write_row new.id f) rows))
          (written new.id f old same_id ∙ writes old found same_id)
          (Elem-map (write_row new.id f) rows old found);
    only = λ q m. only q (map-Elem (write_row new.id f) rows q m);
    kept = λ q m n.
        subst (λ r. Elem r (map (write_row new.id f) rows)) (unwritten new.id f q n)
          (Elem-map (write_row new.id f) rows q m);
    fresh_name = fresh;
    replaced = rep;
    in_range = range;
  }
    where
      only :
          (q : Row)
          → (r : Row) × Elem r rows × (write_row new.id f r ≡ q)
          → (q ≡ new) ⊎ (Elem q rows × (q.id ≢ new.id))
      only q (r, m, e) = elim (Bool-cases (nat_beq r.id new.id)) [
        | inl h ↦
            let same = (nat_beq_iff r.id new.id).0 h in
            inl (sym e ∙ written new.id f r same ∙ writes r m same)
        | inr h ↦
            let other : r.id ≢ new.id = ground (arith, nat_beq_iff r.id new.id) in
            let unchanged : r ≡ q = sym (unwritten new.id f r other) ∙ e in
            inr (subst (λ r. Elem r rows × (r.id ≢ new.id)) unchanged (m, other))
      ]

insert-Assignment :
    (rows : List Row) (now : ℕ) (new : Row)
    → All (λ r. r.id < new.id) rows
    → ((q : Row) → Elem q rows → q.type ≡ new.type → q.name ≢ new.name)
    → new.id < 2 ^ 63
    → Assignment rows (rows ++ new ∷ []) now new
insert-Assignment rows now new below fresh range = record {
  is_new = Elem-append_right rows (new ∷ []) new (inl refl);
  only = λ q m. only q (Elem-append rows (new ∷ []) q m);
  kept = λ q m n. Elem-append_left rows (new ∷ []) q m;
  fresh_name = λ q m n. fresh q m;
  replaced = λ q m e. absurd (other q m e);
  in_range = range;
}
  where
    other : (q : Row) → Elem q rows → q.id ≢ new.id
    other q m e = let h = All-elem (λ r. r.id < new.id) rows q below m in omega arith

    only : (q : Row) → Elem q rows ⊎ Elem q (new ∷ []) → (q ≡ new) ⊎ (Elem q rows × (q.id ≢ new.id))
    only q (inl m) = inr (m, other q m)
    only q (inr (inl e)) = inl (sym e)
    only q (inr (inr m)) = absurd m

-- The first branch: the row of the name is written anew.
update_named-Assignment :
    (rows : List Row) (now id : ℕ) (name : Text) (real_ip : IpAddr) (r : Row)
    → IsTable rows
    → Elem r rows
    → (r.id ≡ id) × (r.type ≡ record_type real_ip) × (r.name ≡ name)
    → Assignment rows
        (map
          (write_row id (λ row. record row {
            real_ip = real_ip_octets real_ip;
            expires_at = now + fake_ip_expiration_time_in_ms;
          }))
          rows)
        now
        (assigned_row id now name real_ip)
update_named-Assignment rows now id name real_ip r table m (hid, hty, hname) =
    update-Assignment rows now (assigned_row id now name real_ip) _ r m hid
      (λ q k e.
        let same = table.ids q r k m (e ∙ sym hid) in
        λ i. record {
          id = e i;
          type = (ap (λ (q : Row). q.type) same ∙ hty) i;
          name = (ap (λ (q : Row). q.name) same ∙ hname) i;
          real_ip = real_ip_octets real_ip;
          expires_at = now + fake_ip_expiration_time_in_ms;
        })
      (λ q k n ety ename.
        n (ap (λ (q : Row). q.id) (table.names q r k m (ety ∙ sym hty) (ename ∙ sym hname)) ∙ hid))
      (λ q k e.
        let same = table.ids q r k m (e ∙ sym hid) in
        inl (ap (λ (q : Row). q.type) same ∙ hty, ap (λ (q : Row). q.name) same ∙ hname))
      (subst (λ n. n < 2 ^ 63) hid (table.in_range r m))

-- The second branch: an expired row is given to the name.
replace_expired-Assignment :
    (rows : List Row) (now id : ℕ) (name : Text) (real_ip : IpAddr) (r : Row)
    → IsTable rows
    → Elem r rows
    → (r.id ≡ id) × (r.expires_at ≤ now)
    → ((q : Row) → Elem q rows → q.type ≡ record_type real_ip → q.name ≢ name)
    → Assignment rows
        (map
          (write_row id (λ row. record row {
            type = record_type real_ip;
            name = name;
            real_ip = real_ip_octets real_ip;
            expires_at = now + fake_ip_expiration_time_in_ms;
          }))
          rows)
        now
        (assigned_row id now name real_ip)
replace_expired-Assignment rows now id name real_ip r table m (hid, expired) unnamed =
    update-Assignment rows now (assigned_row id now name real_ip) _ r m hid
      (λ q k e. λ i. record (assigned_row id now name real_ip) { id = e i }) (λ q k n. unnamed q k)
      (λ q k e.
        inr
          (subst (λ (q : Row). q.expires_at ≤ now) (sym (table.ids q r k m (e ∙ sym hid))) expired))
      (subst (λ n. n < 2 ^ 63) hid (table.in_range r m))

module _ (sqlite : Sqlite) (laws : SqliteLaws sqlite) (self : FakeAuthority) where
  pub assign-Assignment :
      (rows rows' : List Row) (now : ℕ) (name : Text) (real_ip fake_ip : IpAddr)
      → IsTable rows
      → assign_fake_ip sqlite self rows now name real_ip ≡ some (fake_ip, rows')
      → (id : ℕ) × (fake_ip ≡ convert_id_to_fake_ip self id real_ip)
        × Assignment rows rows' now (assigned_row id now name real_ip)
  unfolding assign_fake_ip
  assign-Assignment rows rows' now name real_ip fake_ip table h =
      elim (Option-cases (sqlite.select_named (record_type real_ip) name rows)) [
        | inl unnamed ↦ elim (Option-cases (sqlite.select_expired now rows)) [
          | inl unexpired ↦
              elim (Option-cases (sqlite.insert (λ id. assigned_row id now name real_ip) rows)) [
                | inl failed ↦ cc (rw (unnamed, assign_fake_ip, unexpired, failed) at h)
                | inr ((id, rows''), inserted) ↦
                    let e = some-eq-some (rw (unnamed, assign_fake_ip, unexpired, inserted) at h) in
                    let (appended, below, range) =
                      laws.insert_some (λ id. assigned_row id now name real_ip) rows rows'' id
                        inserted in
                    (
                      id,
                      sym (ap (λ (p : IpAddr × List Row). p.0) e),
                      subst (λ rs. Assignment rows rs now (assigned_row id now name real_ip))
                          (sym appended ∙ ap (λ (p : IpAddr × List Row). p.1) e)
                          (insert-Assignment rows now (assigned_row id now name real_ip) below
                            (laws.named_none (record_type real_ip) name rows unnamed) range),
                    )
              ]
          | inr (id, expired) ↦
              let e = some-eq-some (rw (unnamed, assign_fake_ip, expired) at h) in
              let (r, m, facts) = laws.expired_some now rows id expired in
              (
                id,
                sym (ap (λ (p : IpAddr × List Row). p.0) e),
                subst (λ rs. Assignment rows rs now (assigned_row id now name real_ip))
                    (sym (laws.update_lem id _ rows) ∙ ap (λ (p : IpAddr × List Row). p.1) e)
                    (replace_expired-Assignment rows now id name real_ip r table m facts
                      (laws.named_none (record_type real_ip) name rows unnamed)),
              )
        ]
        | inr (id, named) ↦
            let e = some-eq-some (rw (named, assign_fake_ip) at h) in
            let (r, m, facts) = laws.named_some (record_type real_ip) name rows id named in
            (
              id,
              sym (ap (λ (p : IpAddr × List Row). p.0) e),
              subst (λ rs. Assignment rows rs now (assigned_row id now name real_ip))
                  (sym (laws.update_lem id _ rows) ∙ ap (λ (p : IpAddr × List Row). p.1) e)
                  (update_named-Assignment rows now id name real_ip r table m facts),
            )
      ]
