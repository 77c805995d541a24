-- ===== src/Prelude/Lists.antt =====
-- Lists over the native numbers, and predicates on lists by recursion.
use Prim.Native.Nat.{ℕ, zero, suc, ◌+◌}
use mathlib.Core.Path.{◌≡◌, refl, sym, ap, subst}
use mathlib.Core.Logic.{◌⊎◌, inl, inr}
use mathlib.Core.Bool.{Bool, true, false, ◌||◌, ◌&&◌}
use mathlib.Core.Option.{Option, none, some}
use mathlib.Core.List.{List, [], ◌∷◌, ◌++◌, map}
use native.Mathlib.Omega.{arith}
use plug2proxy.Prelude.Tests.{if◌then◌else◌}

module _ {ℓ} {A : Type ℓ} where
  abbrev pub length : List A → ℕ
  length [] = 0
  length (x ∷ xs) = suc (length xs)

  abbrev pub get_elem? : List A → ℕ → Option A
  get_elem? [] i = none
  get_elem? (x ∷ xs) zero = some x
  get_elem? (x ∷ xs) (suc i) = get_elem? xs i

  pub length-append : (xs ys : List A) → length (xs ++ ys) ≡ length xs + length ys
  length-append [] ys = omega arith
  length-append (x ∷ xs) ys = omega (arith, length-append xs ys)

  -- `iter().any(p)`, `iter().all(p)`, `is_empty()`.
  abbrev pub any : (A → Bool) → List A → Bool
  any p [] = false
  any p (x ∷ xs) = p x || any p xs

  abbrev pub all : (A → Bool) → List A → Bool
  all p [] = true
  all p (x ∷ xs) = p x && all p xs

  abbrev pub is_empty : List A → Bool
  is_empty [] = true
  is_empty (x ∷ xs) = false

  -- `iter().filter(p)` with a Boolean test.
  abbrev pub filter : (A → Bool) → List A → List A
  filter p [] = []
  filter p (x ∷ xs) = if p x then x ∷ filter p xs else filter p xs

  abbrev pub All {κ} : (A → Type κ) → List A → Type κ
  All P [] = Unit
  All P (x ∷ xs) = P x × All P xs

  abbrev pub Any : (A → Type 0) → List A → Type 0
  Any P [] = ⊥
  Any P (x ∷ xs) = P x ⊎ Any P xs

  pub All-append {κ} : (P : A → Type κ) (xs ys : List A) → All P xs → All P ys → All P (xs ++ ys)
  All-append P [] ys hx hy = hy
  All-append P (x ∷ xs) ys hx hy = (hx.0, All-append P xs ys hx.1 hy)

module _ {A : Type 0} where
  -- Membership with the position kept.
  abbrev pub Elem : A → List A → Type 0
  Elem a = Any (λ x. x ≡ a)

  pub All-elem {κ} : (P : A → Type κ) (xs : List A) (a : A) → All P xs → Elem a xs → P a
  All-elem P [] a h m = absurd m
  All-elem P (x ∷ xs) a h (inl e) = subst P e h.0
  All-elem P (x ∷ xs) a h (inr m) = All-elem P xs a h.1 m

  pub All-of_Elem {κ} : (P : A → Type κ) (xs : List A) → ((a : A) → Elem a xs → P a) → All P xs
  All-of_Elem P [] h = tt
  All-of_Elem P (x ∷ xs) h = (h x (inl refl), All-of_Elem P xs (λ a m. h a (inr m)))

  pub Elem-append_left : (xs ys : List A) (a : A) → Elem a xs → Elem a (xs ++ ys)
  Elem-append_left [] ys a m = absurd m
  Elem-append_left (x ∷ xs) ys a (inl e) = inl e
  Elem-append_left (x ∷ xs) ys a (inr m) = inr (Elem-append_left xs ys a m)

  pub Elem-append_right : (xs ys : List A) (a : A) → Elem a ys → Elem a (xs ++ ys)
  Elem-append_right [] ys a m = m
  Elem-append_right (x ∷ xs) ys a m = inr (Elem-append_right xs ys a m)

  pub Elem-append : (xs ys : List A) (a : A) → Elem a (xs ++ ys) → Elem a xs ⊎ Elem a ys
  Elem-append [] ys a m = inr m
  Elem-append (x ∷ xs) ys a (inl e) = inl (inl e)
  Elem-append (x ∷ xs) ys a (inr m) = elim (Elem-append xs ys a m) [
    | inl l ↦ inl (inr l)
    | inr r ↦ inr r
  ]

  pub any-Elem : (p : A → Bool) (xs : List A) (a : A) → Elem a xs → p a ≡ true → any p xs ≡ true
  any-Elem p [] a m h = absurd m
  any-Elem p (x ∷ xs) a m h = ground (arith, any-Elem p xs a)

  pub Elem-filter :
      (p : A → Bool) (xs : List A) (a : A) → Elem a (filter p xs) → Elem a xs × (p a ≡ true)
  Elem-filter p [] a m = absurd m
  Elem-filter p (x ∷ xs) a m = ground (arith, Elem-filter p xs a)

  pub filter-Elem :
      (p : A → Bool) (xs : List A) (a : A) → Elem a xs → p a ≡ true → Elem a (filter p xs)
  filter-Elem p [] a m h = absurd m
  filter-Elem p (x ∷ xs) a m h = ground (arith, filter-Elem p xs a)

module _ {ℓ κ} {A : Type ℓ} {B : Type κ} where
  -- `flat_map`, in the order of the list.
  abbrev pub flat_map : (A → List B) → List A → List B
  flat_map f [] = []
  flat_map f (x ∷ xs) = f x ++ flat_map f xs

  -- `filter_map`.
  abbrev pub filter_map : (A → Option B) → List A → List B
  filter_map f [] = []
  filter_map f (x ∷ xs) = elim (f x) [ none ↦ filter_map f xs | some b ↦ b ∷ filter_map f xs ]

module _ {A B : Type 0} where
  pub Elem-map : (f : A → B) (xs : List A) (a : A) → Elem a xs → Elem (f a) (map f xs)
  Elem-map f [] a m = absurd m
  Elem-map f (x ∷ xs) a (inl e) = inl (ap f e)
  Elem-map f (x ∷ xs) a (inr m) = inr (Elem-map f xs a m)

  pub map-Elem :
      (f : A → B) (xs : List A) (b : B) → Elem b (map f xs) → (a : A) × Elem a xs × (f a ≡ b)
  map-Elem f [] b m = absurd m
  map-Elem f (x ∷ xs) b (inl e) = (x, inl refl, e)
  map-Elem f (x ∷ xs) b (inr m) = let (a, k, e) = map-Elem f xs b m in (a, inr k, e)

  pub flat_map-Elem :
      (f : A → List B) (xs : List A) (b : B)
      → Elem b (flat_map f xs)
      → (a : A) × Elem a xs × Elem b (f a)
  flat_map-Elem f [] b m = absurd m
  flat_map-Elem f (x ∷ xs) b m = elim (Elem-append (f x) (flat_map f xs) b m) [
    | inl l ↦ (x, inl refl, l)
    | inr r ↦ let (a, k, e) = flat_map-Elem f xs b r in (a, inr k, e)
  ]

  pub Elem-flat_map :
      (f : A → List B) (xs : List A) (a : A) (b : B)
      → Elem a xs
      → Elem b (f a)
      → Elem b (flat_map f xs)
  Elem-flat_map f [] a b m h = absurd m
  Elem-flat_map f (x ∷ xs) a b (inl e) h =
      Elem-append_left (f x) (flat_map f xs) b (subst (λ z. Elem b (f z)) (sym e) h)
  Elem-flat_map f (x ∷ xs) a b (inr m) h =
      Elem-append_right (f x) (flat_map f xs) b (Elem-flat_map f xs a b m h)
