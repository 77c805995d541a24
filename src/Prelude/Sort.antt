-- ===== src/Prelude/Sort.antt =====
-- `sort_by_key` of the standard library, a stable sort, by an `i64` key.
use mathlib.Core.Path.{refl}
use mathlib.Core.Logic.{inl, inr}
use mathlib.Core.List.{List, [], ◌∷◌, Permᴰ}
use mathlib.Core.List.Permᴰ
use native.Mathlib.Omega.{arith}
use plug2proxy.Prelude.Tests.{Bool-cases, if◌then◌else◌}
use plug2proxy.Prelude.Lists.{All}
use plug2proxy.Prelude.Int.{ℤ, ◌≤ℤ◌, leb_ℤ}

module _ {ℓ} {A : Type ℓ} (key : A → ℤ) where
  -- An element goes before the first that is not below it, so ties keep their order.
  unfoldable pub insert_by : A → List A → List A
  insert_by x [] = x ∷ []
  insert_by x (y ∷ ys) = if leb_ℤ (key x) (key y) then x ∷ y ∷ ys else y ∷ insert_by x ys

  unfoldable pub sort_by_key : List A → List A
  unfolding insert_by
  sort_by_key [] = []
  sort_by_key (x ∷ xs) = insert_by x (sort_by_key xs)

  -- Every element is at most each later one.
  abbrev pub SortedBy : List A → Type 0
  SortedBy [] = Unit
  SortedBy (x ∷ xs) = All (λ y. key x ≤ℤ key y) xs × SortedBy xs

  AllLe-mono :
      (x y : A) (ys : List A)
      → key x ≤ℤ key y
      → All (λ z. key y ≤ℤ key z) ys
      → All (λ z. key x ≤ℤ key z) ys
  AllLe-mono x y [] h a = tt
  AllLe-mono x y (z ∷ ys) h a = (omega arith, AllLe-mono x y ys h a.1)

  AllLe-insert_by :
      (w x : A) (ys : List A)
      → key w ≤ℤ key x
      → All (λ z. key w ≤ℤ key z) ys
      → All (λ z. key w ≤ℤ key z) (insert_by x ys)
  unfolding insert_by
  AllLe-insert_by w x [] h a = (h, tt)
  AllLe-insert_by w x (y ∷ ys) h a = ground (arith, AllLe-insert_by w x ys)

  insert_by-SortedBy : (x : A) (ys : List A) → SortedBy ys → SortedBy (insert_by x ys)
  unfolding insert_by
  insert_by-SortedBy x [] s = (tt, tt)
  insert_by-SortedBy x (y ∷ ys) s =
      ground (arith, AllLe-mono x y ys, AllLe-insert_by y x ys, insert_by-SortedBy x ys)

  pub sort_by_key-SortedBy : (xs : List A) → SortedBy (sort_by_key xs)
  unfolding sort_by_key
  sort_by_key-SortedBy [] = tt
  sort_by_key-SortedBy (x ∷ xs) = insert_by-SortedBy x (sort_by_key xs) (sort_by_key-SortedBy xs)

  insert_by-perm : (x : A) (ys : List A) → Permᴰ (insert_by x ys) (x ∷ ys)
  unfolding insert_by
  insert_by-perm x [] = Permᴰ.refl (x ∷ [])
  insert_by-perm x (y ∷ ys) = elim (Bool-cases (leb_ℤ (key x) (key y))) [
    | inl e ↦ rw (e, insert_by) (Permᴰ.refl (x ∷ y ∷ ys))
    | inr e ↦
        rw (e, insert_by)
          (Permᴰ.trans (Permᴰ.cons refl (insert_by-perm x ys)) (Permᴰ.swap refl refl))
  ]

  pub sort_by_key-perm : (xs : List A) → Permᴰ (sort_by_key xs) xs
  unfolding sort_by_key
  sort_by_key-perm [] = Permᴰ.nil
  sort_by_key-perm (x ∷ xs) =
      Permᴰ.trans (insert_by-perm x (sort_by_key xs)) (Permᴰ.cons refl (sort_by_key-perm xs))
