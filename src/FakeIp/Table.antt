-- ===== src/FakeIp/Table.antt =====
-- The `records` table of src/lib/in/fake_ip_dns/fake_authority.rs, and SQLite as the program uses it:
-- each statement is a parameter, with what SQLite documents of it as a law.
use plug2proxy.Prelude.{
  ℕ, ℤ, pos, ◌^◌, ◌≤◌, ◌<◌, ◌≡◌, ◌≢◌, Option, none, some, List, [], ◌∷◌, ◌++◌, map, if◌then◌else◌,
  nat_beq, All, Elem,
}
use plug2proxy.Net.{Text}

pub data RecordType : Type 0 where
  a aaaa : RecordType

-- A row; the type is stored as its text.
pub record Row : Type 0 where
  pub id : ℕ
  pub type : RecordType
  pub name : Text
  pub real_ip : List ℕ
  pub expires_at : ℕ

pub record Sqlite : Type 0 where
  -- "SELECT id FROM records WHERE type = ? AND name = ?", the first row.
  pub select_named : RecordType → Text → List Row → Option ℕ
  -- "SELECT id FROM records WHERE expires_at <= ? ORDER BY expires_at ASC", the first row.
  pub select_expired : ℕ → List Row → Option ℕ
  -- "UPDATE records SET … WHERE id = ?".
  pub update : ℕ → (Row → Row) → List Row → List Row
  -- "INSERT INTO records …" and `last_insert_rowid`; `none` is an error.
  pub insert : (ℕ → Row) → List Row → Option (ℕ × List Row)
  -- "SELECT name, real_ip FROM records WHERE type = ? AND id = ?", the first row.
  pub select_fake : RecordType → ℤ → List Row → Option (Text × List ℕ)

-- The row that a statement found.
abbrev pub Found : List Row → (Row → Type 0) → Type 0
Found rows P = (r : Row) × Elem r rows × P r

pub record SqliteLaws (s : Sqlite) : Type 0 where
  pub named_some :
      (type : RecordType) (name : Text) (rows : List Row) (id : ℕ)
      → s.select_named type name rows ≡ some id
      → Found rows (λ r. (r.id ≡ id) × (r.type ≡ type) × (r.name ≡ name))
  pub named_none :
      (type : RecordType) (name : Text) (rows : List Row)
      → s.select_named type name rows ≡ none
      → (r : Row) → Elem r rows
      → r.type ≡ type
      → r.name ≢ name
  pub expired_some :
      (now : ℕ) (rows : List Row) (id : ℕ)
      → s.select_expired now rows ≡ some id
      → Found rows (λ r. (r.id ≡ id) × (r.expires_at ≤ now))
  pub update_lem :
      (id : ℕ) (f : Row → Row) (rows : List Row)
      → s.update id f rows ≡ map (λ r. if nat_beq r.id id then f r else r) rows
  -- `AUTOINCREMENT`: the id is above all that are there, and within an `i64`.
  pub insert_some :
      (row : ℕ → Row) (rows rows' : List Row) (id : ℕ)
      → s.insert row rows ≡ some (id, rows')
      → (rows' ≡ rows ++ row id ∷ []) × All (λ r. r.id < id) rows × (id < 2 ^ 63)
  pub fake_some :
      (type : RecordType) (id : ℤ) (rows : List Row) (name : Text) (real_ip : List ℕ)
      → s.select_fake type id rows ≡ some (name, real_ip)
      → Found rows
          (λ r. (pos r.id ≡ id) × (r.type ≡ type) × (r.name ≡ name) × (r.real_ip ≡ real_ip))
  pub fake_none :
      (type : RecordType) (id : ℤ) (rows : List Row)
      → s.select_fake type id rows ≡ none
      → (r : Row) → Elem r rows
      → r.type ≡ type
      → pos r.id ≢ id
