-- ===== src/Route/Label.antt =====
-- src/lib/route/rule.rs: labels.
use plug2proxy.Prelude.{Eq, ◌==◌, ◌≡◌, ◌↔◌, Bool, true, false, arith, nat_eq, list_eq, list_beq_iff}
use plug2proxy.Net.{Text}

pub data BuiltInLabel : Type 0 where
  direct proxy any : BuiltInLabel

pub data Label : Type 0 where
  built_in : BuiltInLabel → Label
  custom : Text → Label

-- The derived `PartialEq`.
abbrev pub built_in_label_beq : BuiltInLabel → BuiltInLabel → Bool
built_in_label_beq direct direct = true
built_in_label_beq proxy proxy = true
built_in_label_beq any any = true
built_in_label_beq _ _ = false

pub built_in_label_beq_iff : (a b : BuiltInLabel) → (built_in_label_beq a b ≡ true) ↔ (a ≡ b)
built_in_label_beq_iff a b = ground arith

abbrev pub label_beq : Label → Label → Bool
label_beq (built_in a) (built_in b) = built_in_label_beq a b
label_beq (custom s) (custom t) = s == t
label_beq _ _ = false

pub label_beq_iff : (a b : Label) → (label_beq a b ≡ true) ↔ (a ≡ b)
label_beq_iff (built_in a) (built_in b) = ground (arith, built_in_label_beq_iff a b)
label_beq_iff (built_in a) (custom t) = ground arith
label_beq_iff (custom s) (built_in b) = ground arith
label_beq_iff (custom s) (custom t) = ground (arith, list_beq_iff s t)

instance abbrev pub label_eq : Eq Label
label_eq = record { beq = label_beq; beq_iff = label_beq_iff }
