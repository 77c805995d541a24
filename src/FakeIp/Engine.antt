-- ===== src/FakeIp/Engine.antt =====
-- A small table engine: the statements on a list of rows, by which the laws of `Sqlite` are seen to hold
-- together.
use mathlib.Core.Option
use plug2proxy.Prelude.{
  ℕ, ℤ, pos, ◌+◌, ◌^◌, ◌≤◌, ◌<◌, ◌≡◌, ◌↔◌, refl, sym, ap, subst, ◌∙◌, inl, inr, Bool, true, false,
  ◌&&◌, Bool-cases, Option, none, some, some-eq-some, List, [], ◌∷◌, ◌++◌, map, if◌then◌else◌,
  nat_beq, leb, ltb, beq_ℤ, beq_ℤ_iff, ◌==◌, ==_eq, ==_refl, nat_eq, list_eq, All, Elem, arith,
}
use plug2proxy.Net.{Text}
use plug2proxy.FakeIp.Authority.{authority}
use plug2proxy.FakeIp.Resolver.{FakeNet, FakeIpResolver}
use plug2proxy.FakeIp.Table.{RecordType, a, aaaa, Row, Sqlite, SqliteLaws}

abbrev type_beq : RecordType → RecordType → Bool
type_beq a a = true
type_beq aaaa aaaa = true
type_beq _ _ = false

type_beq_iff : (s t : RecordType) → (type_beq s t ≡ true) ↔ (s ≡ t)
type_beq_iff s t = ground arith

unfoldable pub find : (Row → Bool) → List Row → Option Row
find p [] = none
find p (r ∷ rows) = let rest = find p rows in if p r then some r else rest

find-some :
    (p : Row → Bool) (rows : List Row) (r : Row) → find p rows ≡ some r → Elem r rows × (p r ≡ true)
unfolding find
find-some p [] r h = cc
find-some p (q ∷ rows) r h = elim (Bool-cases (p q)) [
  | inl e ↦ let same = some-eq-some (rw (e, find) at h) in (inl same, ap p (sym same) ∙ e)
  | inr e ↦ let (m, k) = find-some p rows r (rw (e, find) at h) in (inr m, k)
]

find-none :
    (p : Row → Bool) (rows : List Row) → find p rows ≡ none → (r : Row) → Elem r rows → p r ≡ false
unfolding find
find-none p [] h r m = absurd m
find-none p (q ∷ rows) h r m = elim (Bool-cases (p q)) [
  | inl e ↦ cc (rw (e, find) at h)
  | inr e ↦ elim m [
    | inl same ↦ ap p (sym same) ∙ e
    | inr k ↦ find-none p rows (rw (e, find) at h) r k
  ]
]

abbrev is_named : RecordType → Text → Row → Bool
is_named type name r = type_beq r.type type && r.name == name

abbrev is_fake : RecordType → ℤ → Row → Bool
is_fake type id r = type_beq r.type type && beq_ℤ (pos r.id) id

-- Above every id.
unfoldable pub next_id : List Row → ℕ
next_id [] = 1
next_id (r ∷ rows) = r.id + next_id rows + 1

below_next : (rows : List Row) → All (λ r. r.id < next_id rows) rows
unfolding next_id
below_next [] = tt
below_next (r ∷ rows) = (omega arith, grows rows (next_id rows) (below_next rows))
  where
    grows : (qs : List Row) (n : ℕ) → All (λ q. q.id < n) qs → All (λ q. q.id < r.id + n + 1) qs
    grows [] n h = tt
    grows (q ∷ qs) n h = (omega (arith, h.0), grows qs n h.1)

abbrev pub engine : Sqlite
engine = record {
  select_named = λ type name rows. Option.map (λ (r : Row). r.id) (find (is_named type name) rows);
  select_expired =
      λ now rows. Option.map (λ (r : Row). r.id) (find (λ r. leb r.expires_at now) rows);
  update = λ id f rows. map (λ r. if nat_beq r.id id then f r else r) rows;
  insert = λ row rows.
      if ltb (next_id rows) (2 ^ 63)
      then some (next_id rows, rows ++ row (next_id rows) ∷ [])
      else none;
  select_fake =
      λ type id rows. Option.map (λ (r : Row). (r.name, r.real_ip)) (find (is_fake type id) rows);
}

map-some :
    {A : Type 0} (f : Row → A) (o : Option Row) (b : A)
    → Option.map f o ≡ some b
    → (r : Row) × (o ≡ some r) × (f r ≡ b)
map-some f none b h = cc
map-some f (some r) b h = (r, refl, some-eq-some h)

map-none : {A : Type 0} (f : Row → A) (o : Option Row) → Option.map f o ≡ none → o ≡ none
map-none f none h = refl
map-none f (some r) h = cc

insert_lem :
    (row : ℕ → Row) (rows rows' : List Row) (id : ℕ)
    → engine.insert row rows ≡ some (id, rows')
    → (rows' ≡ rows ++ row id ∷ []) × All (λ r. r.id < id) rows × (id < 2 ^ 63)
insert_lem row rows rows' id h = elim (Bool-cases (ltb (next_id rows) (2 ^ 63))) [
  | inr e ↦ cc (rw e at h)
  | inl e ↦
      let p = some-eq-some (rw e at h) in
      let eid = ap (λ (z : ℕ × List Row). z.0) p in
      let erows = ap (λ (z : ℕ × List Row). z.1) p in
      (
        sym erows ∙ ap (λ i. rows ++ row i ∷ []) eid,
        subst (λ i. All (λ r. r.id < i) rows) eid (below_next rows),
        subst (λ i. i < 2 ^ 63) eid (ground arith),
      )
]

pub engine_laws : SqliteLaws engine
engine_laws = record {
  named_some = λ type name rows id h.
      let (r, found, e) = map-some (λ (r : Row). r.id) (find (is_named type name) rows) id h in
      let (m, k) = find-some (is_named type name) rows r found in
      (r, m, (e, ground (arith, type_beq_iff r.type type), ground (arith, ==_eq r.name name)));
  named_none = λ type name rows h r m ety ename.
      let k = find-none (is_named type name) rows (map-none _ _ h) r m in
      ground (arith, type_beq_iff r.type type, ename, ==_refl name);
  expired_some = λ now rows id h.
      let (r, found, e) =
        map-some (λ (r : Row). r.id) (find (λ r. leb r.expires_at now) rows) id h in
      let (m, k) = find-some (λ r. leb r.expires_at now) rows r found in (r, m, (e, ground arith));
  update_lem = λ id f rows. refl;
  insert_some = insert_lem;
  fake_some = λ type id rows name real_ip h.
      let (r, found, e) =
        map-some (λ (r : Row). (r.name, r.real_ip)) (find (is_fake type id) rows) (name, real_ip)
          h in
      let (m, k) = find-some (is_fake type id) rows r found in
      (
        r,
        m,
        (
          (beq_ℤ_iff (pos r.id) id).0 (ground arith),
          ground (arith, type_beq_iff r.type type),
          ap (λ (z : Text × List ℕ). z.0) e,
          ap (λ (z : Text × List ℕ). z.1) e,
        ),
      );
  fake_none = λ type id rows h r m ety eid.
      let k = find-none (is_fake type id) rows (map-none _ _ h) r m in
      ground (arith, type_beq_iff r.type type, (beq_ℤ_iff (pos r.id) id).1 eid);
}

-- Nets that begin where the authority begins.
pub contains_iff :
    (network size bits : ℕ)
    → (leb network bits && ltb bits (network + size) ≡ true)
      ↔ ((network ≤ bits) × (bits < network + size))
contains_iff network size bits = ground arith

abbrev pub net : ℕ → ℕ → FakeNet
net network size = record {
  network = network;
  size = size;
  contains = λ bits. leb network bits && ltb bits (network + size);
  contains_iff = contains_iff network size;
}

abbrev pub resolver : FakeIpResolver
resolver = record {
  fake_ipv4_net = net authority.fake_ip_v4_start (2 ^ 17);
  fake_ipv6_net = net authority.fake_ip_v6_start (2 ^ 96);
}
