-- ===== src/FakeIp/Lookup/Rewritten.antt =====
-- What the loop over the parameters of an HTTPS record does with its address hints: `lookup`
-- (src/lib/in/fake_ip_dns/fake_authority.rs).
use mathlib.Core.List.{append_assoc, append-nil}
use plug2proxy.Prelude.{
  ℕ, ◌+◌, ◌≡◌, refl, sym, ap, ◌∙◌, subst, ◌⊎◌, inl, inr, true, false, Bool-cases, Option-cases,
  none, some, List, [], ◌∷◌, ◌++◌,
}
use plug2proxy.Net.{Text, IpAddr}
use plug2proxy.FakeIp.Table.{Row, Sqlite, SqliteLaws}
use plug2proxy.FakeIp.Authority.{FakeAuthority, assign_fake_ip, convert_id_to_fake_ip}
use plug2proxy.FakeIp.Assignment.{IsTable, Assignment, assigned_row, assign-Assignment}
use plug2proxy.FakeIp.Invariant.{Assignment-IsTable}
use plug2proxy.FakeIp.Lookup.{
  SvcParamKey, SvcParamValue, RData, https_data, HintsEnd, done, forwarded, hints_panicked, is_hint,
  hint_address, hint_value, hints_loop,
}

abbrev pub SvcParam : Type 0
SvcParam = SvcParamKey × SvcParamValue

module _ (self : FakeAuthority) (clock : ℕ → ℕ) (name : Text) where
  -- A hint has become the one fake address of the row that was assigned to its first address and the name,
  -- by an assignment between the two tables; another parameter and the table are as they were.
  abbrev pub IsRewritten : List Row → List Row → SvcParam → SvcParam → Type 0
  IsRewritten before after (key, value) (key', value') = (key ≡ key') × elim (is_hint key) [
    | true ↦
        (real_ip : IpAddr) × (id : ℕ) × (tick : ℕ) × (hint_address key value ≡ some real_ip)
        × (value' ≡ hint_value (convert_id_to_fake_ip self id real_ip))
        × Assignment before after (clock tick) (assigned_row id (clock tick) name real_ip)
    | false ↦ (value ≡ value') × (before ≡ after)
  ]

  -- One after the other, none dropped and none added, with the tables between them.
  abbrev pub Rewritten : List Row → List Row → List SvcParam → List SvcParam → Type 0
  Rewritten rows rows' [] [] = rows ≡ rows'
  Rewritten rows rows' (p ∷ ps) (q ∷ qs) =
      (after : List Row) × IsRewritten rows after p q × Rewritten after rows' ps qs
  Rewritten _ _ _ _ = ⊥

-- A hint without an address to hide.
abbrev pub HasOpenHint : List SvcParam → Type 0
HasOpenHint [] = ⊥
HasOpenHint ((key, value) ∷ params) =
    ((is_hint key ≡ true) × (hint_address key value ≡ none)) ⊎ HasOpenHint params

abbrev pub IsOpen : RData → Type 0
IsOpen (https_data svcb) = HasOpenHint svcb.svc_params
IsOpen _ = Unit

params_of : HintsEnd → List SvcParam
params_of (done params rows) = params
params_of _ = []

rows_of : HintsEnd → List Row
rows_of (done params rows) = rows
rows_of _ = []

pub HintsEnd-cases :
    (s : HintsEnd)
    → (s ≡ hints_panicked)
      ⊎ (((rows : List Row) × (s ≡ forwarded rows))
          ⊎ ((params : List SvcParam) × (rows : List Row) × (s ≡ done params rows)))
HintsEnd-cases hints_panicked = inl refl
HintsEnd-cases (forwarded rows) = inr (inl (rows, refl))
HintsEnd-cases (done params rows) = inr (inr (params, rows, refl))

module _ (sqlite : Sqlite) (laws : SqliteLaws sqlite) (self : FakeAuthority) (clock : ℕ → ℕ)
    (name : Text) where
  -- What the loop adds to the parameters before it.
  abbrev Added : List Row → List Row → List SvcParam → List SvcParam → List SvcParam → Type 0
  Added rows rows' before params out =
      (qs : List SvcParam) × (out ≡ before ++ qs) × Rewritten self clock name rows rows' params qs

  Added-cons :
      (rows after rows' : List Row) (before params out : List SvcParam) (p q : SvcParam)
      → IsRewritten self clock name rows after p q
      → Added after rows' (before ++ q ∷ []) params out
      → Added rows rows' before (p ∷ params) out
  Added-cons rows after rows' before params out p q r (qs, e, rest) =
      (q ∷ qs, e ∙ append_assoc before (q ∷ []) qs, (after, r, rest))

  kept_param :
      (rows : List Row) (key : SvcParamKey) (value : SvcParamValue)
      → is_hint key ≡ false
      → IsRewritten self clock name rows rows (key, value) (key, value)
  kept_param rows key value e = (refl, rw e (refl, refl))

  hint_param :
      (rows after : List Row) (key : SvcParamKey) (value : SvcParamValue) (real_ip : IpAddr)
      (id tick : ℕ)
      → is_hint key ≡ true
      → hint_address key value ≡ some real_ip
      → Assignment rows after (clock tick) (assigned_row id (clock tick) name real_ip)
      → IsRewritten self clock name rows after
          (key, value)
          (key, hint_value (convert_id_to_fake_ip self id real_ip))
  hint_param rows after key value real_ip id tick e f t =
      (refl, rw e (real_ip, id, tick, f, refl, t))

  pub hints_loop-Added :
      (tick : ℕ) (rows rows' : List Row) (before params out : List SvcParam)
      → IsTable rows
      → hints_loop sqlite self clock name tick rows before params ≡ done out rows'
      → Added rows rows' before params out
  unfolding hints_loop params_of rows_of
  hints_loop-Added tick rows rows' before [] out table h =
      ([], sym (ap params_of h) ∙ sym (append-nil before), ap rows_of h)
  hints_loop-Added tick rows rows' before ((key, value) ∷ params) out table h =
      elim (Bool-cases (is_hint key)) [
        | inr e ↦
            Added-cons rows rows rows' before params out (key, value) (key, value)
              (kept_param rows key value e)
              (hints_loop-Added tick rows rows' (before ++ (key, value) ∷ []) params out table
                (rw (e, hints_loop) at h))
        | inl e ↦ elim (Option-cases (hint_address key value)) [
          | inl f ↦ cc (rw (e, f, hints_loop) at h)
          | inr (real_ip, f) ↦
              elim (Option-cases (assign_fake_ip sqlite self rows (clock tick) name real_ip)) [
                | inl g ↦ cc (rw (e, f, g, hints_loop) at h)
                | inr ((fake_ip, after), g) ↦
                    let (id, fake, t) =
                      assign-Assignment sqlite laws self rows after (clock tick) name real_ip
                        fake_ip table g in
                    Added-cons rows after rows' before params out (key, value)
                      (key, hint_value fake_ip)
                      (subst
                        (λ ip.
                          IsRewritten self clock name rows after (key, value) (key, hint_value ip))
                        (sym fake) (hint_param rows after key value real_ip id tick e f t))
                      (hints_loop-Added (tick + 1) after rows'
                        (before ++ (key, hint_value fake_ip) ∷ []) params out
                        (Assignment-IsTable t table) (rw (e, f, g, hints_loop) at h))
              ]
        ]
      ]

  -- A loop that forwards has come to a hint without an address to hide.
  pub hints_loop-HasOpenHint :
      (tick : ℕ) (rows rows' : List Row) (before params : List SvcParam)
      → hints_loop sqlite self clock name tick rows before params ≡ forwarded rows'
      → HasOpenHint params
  unfolding hints_loop
  hints_loop-HasOpenHint tick rows rows' before [] h = cc
  hints_loop-HasOpenHint tick rows rows' before ((key, value) ∷ params) h =
      elim (Bool-cases (is_hint key)) [
        | inr e ↦ inr (
            hints_loop-HasOpenHint tick rows rows' (before ++ (key, value) ∷ []) params
              (rw (e, hints_loop) at h))
        | inl e ↦ elim (Option-cases (hint_address key value)) [
          | inl f ↦ inl (e, f)
          | inr (real_ip, f) ↦
              elim (Option-cases (assign_fake_ip sqlite self rows (clock tick) name real_ip)) [
                | inl g ↦ cc (rw (e, f, g, hints_loop) at h)
                | inr ((fake_ip, after), g) ↦ inr (
                    hints_loop-HasOpenHint (tick + 1) after rows'
                      (before ++ (key, hint_value fake_ip) ∷ []) params
                      (rw (e, f, g, hints_loop) at h))
              ]
        ]
      ]
