-- ===== src/HashMap/Distinct.antt =====
-- A map has one entry for a key.
use plug2proxy.Prelude.{
  Eq, ◌==◌, ==_eq, ◌≡◌, refl, ap, subst, Bool-cases, inl, inr, none, some, List, [], ◌∷◌, arith,
  Elem,
}
use plug2proxy.HashMap.{get, insert, remove, get-insert, get-remove}

module _ {K : Type 0} {V : Type 0} ⦃e : Eq K⦄ where
  abbrev pub Distinct : List (K × V) → Type 0
  Distinct [] = Unit
  Distinct ((k, v) ∷ m) = (get k m ≡ none) × Distinct m

  pub insert-Distinct : (k : K) (v : V) (m : List (K × V)) → Distinct m → Distinct (insert k v m)
  unfolding insert get
  insert-Distinct k v [] d = (refl, tt)
  insert-Distinct k v ((j, w) ∷ m) d =
      ground (arith, e.beq_iff j k, e.beq_iff k j, get-insert k j v m, insert-Distinct k v m d.1)

  pub remove-Distinct : (k : K) (m : List (K × V)) → Distinct m → Distinct (remove k m)
  unfolding remove
  remove-Distinct k [] d = tt
  remove-Distinct k ((j, w) ∷ m) d = ground (arith, get-remove k j m, remove-Distinct k m d.1)

  get-none_of_Elem : (k : K) (v : V) (m : List (K × V)) → Elem (k, v) m → get k m ≡ none → ⊥
  unfolding get
  get-none_of_Elem k v [] m h = m
  get-none_of_Elem k v ((j, w) ∷ m) (inl p) h =
      ground (arith, ap (λ (q : K × V). q.0) p, e.beq_iff j k)
  get-none_of_Elem k v ((j, w) ∷ m) (inr p) h = ground (arith, get-none_of_Elem k v m p)

  pub get-Elem : (k : K) (v : V) (m : List (K × V)) → Distinct m → Elem (k, v) m → get k m ≡ some v
  unfolding get
  get-Elem k v [] d m = absurd m
  get-Elem k v ((j, w) ∷ m) d (inl p) =
      ground (arith, ap (λ (q : K × V). q.0) p, ap (λ (q : K × V). q.1) p, e.beq_iff j k)
  get-Elem k v ((j, w) ∷ m) d (inr p) = elim (Bool-cases (j == k)) [
    | inl q ↦ absurd (get-none_of_Elem k v m p (subst (λ i. get i m ≡ none) (==_eq j k q) d.0))
    | inr q ↦ rw (q, get) (get-Elem k v m d.1 p)
  ]
