-- ===== src/HashMap.antt =====
-- The standard library's `HashMap` and `HashSet`, as association lists and lists. The order of the
-- entries means nothing: where the program iterates over a map, the code that does so takes the
-- order as an argument.
pub mod Distinct
use plug2proxy.Prelude.{
  Eq, ◌==◌, ==_eq, ◌≡◌, refl, Bool, true, false, not, inl, inr, Option, none, some, List, [], ◌∷◌,
  arith, if◌then◌else◌, any, filter, Elem, Bool-cases,
}

module _ {K : Type 0} {V : Type 0} ⦃e : Eq K⦄ where
  unfoldable pub get : K → List (K × V) → Option V
  get k [] = none
  get k ((j, v) ∷ m) = if j == k then some v else get k m

  -- `insert`: the value of a key that is there is replaced.
  unfoldable pub insert : K → V → List (K × V) → List (K × V)
  insert k v [] = (k, v) ∷ []
  insert k v ((j, w) ∷ m) = if j == k then (k, v) ∷ m else (j, w) ∷ insert k v m

  unfoldable pub remove : K → List (K × V) → List (K × V)
  remove k [] = []
  remove k ((j, w) ∷ m) = let rest = remove k m in if j == k then rest else (j, w) ∷ rest

  pub get-insert :
      (k j : K) (v : V) (m : List (K × V))
      → get j (insert k v m) ≡ (if k == j then some v else get j m)
  unfolding get insert
  get-insert k j v [] = refl
  get-insert k j v ((i, w) ∷ m) =
      ground (arith, e.beq_iff k j, e.beq_iff i k, e.beq_iff i j, get-insert k j v m)

  pub get-remove :
      (k j : K) (m : List (K × V)) → get j (remove k m) ≡ (if k == j then none else get j m)
  unfolding get remove
  get-remove k j [] = ground arith
  get-remove k j ((i, w) ∷ m) =
      ground (arith, e.beq_iff k j, e.beq_iff i k, e.beq_iff i j, get-remove k j m)

  pub Elem-get : (k : K) (v : V) (m : List (K × V)) → get k m ≡ some v → Elem (k, v) m
  unfolding get
  Elem-get k v [] h = cc
  Elem-get k v ((j, w) ∷ m) h = elim (Bool-cases (j == k)) [
    | inl p ↦ inl (ground (arith, ==_eq j k))
    | inr p ↦ inr (Elem-get k v m (ground arith))
  ]

  -- No key has two entries.
  abbrev pub NoKey : K → List (K × V) → Type 0
  NoKey k m = get k m ≡ none

module _ {K : Type 0} ⦃e : Eq K⦄ where
  -- `HashSet::contains`, `insert` and `remove`.
  unfoldable pub contains : List K → K → Bool
  contains xs a = any (λ x. x == a) xs

  unfoldable pub set_insert : K → List K → List K
  unfolding contains
  set_insert a xs = if contains xs a then xs else a ∷ xs

  unfoldable pub set_remove : K → List K → List K
  set_remove a xs = filter (λ x. not (x == a)) xs

  pub contains-set_insert :
      (a b : K) (xs : List K)
      → contains (set_insert a xs) b ≡ (if a == b then true else contains xs b)
  unfolding set_insert
  contains-set_insert a b xs = elim (Bool-cases (contains xs a)) [
    | inl p ↦ elim (Bool-cases (a == b)) [
      | inl q ↦ ground (arith, ==_eq a b)
      | inr q ↦ ground arith
    ]
    | inr p ↦ ground arith
  ]

  pub contains-set_remove :
      (a b : K) (xs : List K)
      → contains (set_remove a xs) b ≡ (if a == b then false else contains xs b)
  unfolding contains set_remove
  contains-set_remove a b [] = ground arith
  contains-set_remove a b (x ∷ xs) =
      ground (arith, e.beq_iff x a, e.beq_iff a b, e.beq_iff x b, contains-set_remove a b xs)
