-- ===== src/Prelude/Permute.antt =====
-- What permutations keep. `Permᴰ` is the library's permutation with its derivation kept.
use mathlib.Core.Path.{◌≡◌, refl, sym, ap, subst, ◌∙◌}
use mathlib.Core.Logic.{inl, inr}
use mathlib.Core.List.{List, [], ◌∷◌, ◌++◌, Permᴰ, append_assoc}
use mathlib.Core.List.Permᴰ
use plug2proxy.Prelude.Lists.{All, Elem, flat_map}

pub All-perm {ℓ κ} :
    {A : Type ℓ} (P : A → Type κ) {xs ys : List A} → Permᴰ xs ys → All P xs → All P ys
All-perm P Permᴰ.nil h = tt
All-perm P (Permᴰ.cons e p) h = (subst P e h.0, All-perm P p h.1)
All-perm P (Permᴰ.swap e e') h = (subst P e' h.1.0, (subst P e h.0, h.1.1))
All-perm P (Permᴰ.trans p q) h = All-perm P q (All-perm P p h)

pub Elem-perm : {A : Type 0} {xs ys : List A} (a : A) → Permᴰ xs ys → Elem a xs → Elem a ys
Elem-perm a Permᴰ.nil m = m
Elem-perm a (Permᴰ.cons e p) (inl h) = inl (sym e ∙ h)
Elem-perm a (Permᴰ.cons e p) (inr m) = inr (Elem-perm a p m)
Elem-perm a (Permᴰ.swap e e') (inl h) = inr (inl (sym e ∙ h))
Elem-perm a (Permᴰ.swap e e') (inr (inl h)) = inl (sym e' ∙ h)
Elem-perm a (Permᴰ.swap e e') (inr (inr m)) = inr (inr m)
Elem-perm a (Permᴰ.trans p q) m = Elem-perm a q (Elem-perm a p m)

module _ {ℓ} {A : Type ℓ} where
  pub perm_of_eq : {xs ys : List A} → xs ≡ ys → Permᴰ xs ys
  perm_of_eq {xs} e = subst (Permᴰ xs) e (Permᴰ.refl xs)

  -- Two blocks at the front change places.
  pub swap_blocks : (xs ys zs : List A) → Permᴰ (xs ++ (ys ++ zs)) (ys ++ (xs ++ zs))
  swap_blocks xs ys zs = Permᴰ.trans (perm_of_eq (sym (append_assoc xs ys zs))) (
      Permᴰ.trans (Permᴰ.append_right zs (Permᴰ.append_comm xs ys))
        (perm_of_eq (append_assoc ys xs zs)))

module _ {ℓ κ} {A : Type ℓ} {B : Type κ} (f : A → List B) where
  pub flat_map-perm : {xs ys : List A} → Permᴰ xs ys → Permᴰ (flat_map f xs) (flat_map f ys)
  flat_map-perm Permᴰ.nil = Permᴰ.nil
  flat_map-perm (Permᴰ.cons {b = b} {l₁ = l} e p) =
      Permᴰ.trans (perm_of_eq (ap (λ z. f z ++ flat_map f l) e))
        (Permᴰ.append_left (f b) (flat_map-perm p))
  flat_map-perm (Permᴰ.swap {a = a} {b = b} {l = l} e e') =
      Permᴰ.trans (swap_blocks (f a) (f b) (flat_map f l))
        (perm_of_eq (λ i. f (e' i) ++ (f (e i) ++ flat_map f l)))
  flat_map-perm (Permᴰ.trans p q) = Permᴰ.trans (flat_map-perm p) (flat_map-perm q)

pub perm_nil : {A : Type 0} (xs : List A) → Permᴰ xs [] → xs ≡ []
perm_nil [] p = refl
perm_nil (x ∷ xs) p = absurd (Elem-perm x p (inl refl))
