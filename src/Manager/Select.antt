-- ===== src/Manager/Select.antt =====
-- The choice among the tunnels of a label: `select_from_tunnels` (src/lib/in/tunnel_manager.rs).
use plug2proxy.Prelude.{
  ℕ, ℤ, zero, suc, ◌%◌, ◌<◌, ◌≤ℤ◌, ◌≡◌, refl, sym, ap, ◌∙◌, subst, beq_ℤ, beq_ℤ_iff, Bool, true,
  false, Bool-cases, none, some, List, [], ◌∷◌, inl, inr, arith, some-eq-some, filter, length,
  get_elem?, SortedBy, All, All-elem, All-of_Elem, ≤ℤ-antisym, ≤ℤ_of_eq, Elem, Elem-filter,
  filter-Elem,
}
use plug2proxy.Manager.{InTunnel, take_while, tunnels_with_top_priority, select_from_tunnels}

get_elem?-Elem : {A : Type 0} (xs : List A) (i : ℕ) (x : A) → get_elem? xs i ≡ some x → Elem x xs
get_elem?-Elem [] i x h = cc
get_elem?-Elem (y ∷ xs) zero x h = inl (some-eq-some h)
get_elem?-Elem (y ∷ xs) (suc i) x h = inr (get_elem?-Elem xs i x h)

Elem-get_elem? :
    {A : Type 0} (xs : List A) (x : A)
    → Elem x xs
    → (i : ℕ) × (i < length xs) × (get_elem? xs i ≡ some x)
Elem-get_elem? [] x m = absurd m
Elem-get_elem? (y ∷ xs) x (inl e) = (0, omega arith, ap some e)
Elem-get_elem? (y ∷ xs) x (inr m) = let (i, h, e) = Elem-get_elem? xs x m in (suc i, omega arith, e)

get_elem?-below :
    {A : Type 0} (xs : List A) (i : ℕ) → i < length xs → (x : A) × (get_elem? xs i ≡ some x)
get_elem?-below [] i h = absurd (omega arith)
get_elem?-below (x ∷ xs) zero h = (x, refl)
get_elem?-below (x ∷ xs) (suc i) h = get_elem?-below xs i (omega arith)

take_while-Elem :
    {A : Type 0} (p : A → Bool) (xs : List A) (x : A)
    → Elem x (take_while p xs)
    → Elem x xs × (p x ≡ true)
unfolding take_while
take_while-Elem p [] x m = absurd m
take_while-Elem p (y ∷ xs) x m = elim (Bool-cases (p y)) [
  | inr e ↦ absurd (rw (e, take_while) at m)
  | inl e ↦ elim (rw (e, take_while) at m) [
    | inl q ↦ (inl q, ap p (sym q) ∙ e)
    | inr k ↦ let r = take_while-Elem p xs x k in (inr r.0, r.1)
  ]
]

abbrev priority : InTunnel → ℤ
priority t = t.priority

filter-SortedBy :
    (p : InTunnel → Bool) (xs : List InTunnel)
    → SortedBy priority xs
    → SortedBy priority (filter p xs)
filter-SortedBy p [] s = tt
filter-SortedBy p (x ∷ xs) s = elim (Bool-cases (p x)) [
  | inr e ↦ rw e (filter-SortedBy p xs s.1)
  | inl e ↦ rw e (
    All-of_Elem (λ (y : InTunnel). x.priority ≤ℤ y.priority) (filter p xs)
        (λ a m.
          All-elem (λ (y : InTunnel). x.priority ≤ℤ y.priority) xs a s.0 (Elem-filter p xs a m).0),
    filter-SortedBy p xs s.1,
  )
]

at_front :
    (k : ℤ) (xs : List InTunnel) (q : InTunnel)
    → SortedBy priority xs
    → All (λ (y : InTunnel). k ≤ℤ y.priority) xs
    → Elem q xs
    → q.priority ≡ k
    → Elem q (take_while (λ (t : InTunnel). beq_ℤ t.priority k) xs)
unfolding take_while
at_front k [] q s a m e = absurd m
at_front k (y ∷ xs) q s a (inl p) e =
    rw ((beq_ℤ_iff y.priority k).1 (ap priority p ∙ e), take_while) (inl p)
at_front k (y ∷ xs) q s a (inr m) e =
    let above = All-elem (λ (z : InTunnel). y.priority ≤ℤ z.priority) xs q s.0 m in
    rw
      (
        (beq_ℤ_iff y.priority k).1 (≤ℤ-antisym (subst (λ j. y.priority ≤ℤ j) e above) a.0),
        take_while,
      )
      (inr (at_front k xs q s.1 a.1 m e))

-- A tunnel of the list that is active, and before which no active one goes.
abbrev pub IsTop : (InTunnel → Bool) → List InTunnel → InTunnel → Type 0
IsTop is_active tunnels t =
    Elem t tunnels
    × (is_active t ≡ true)
    × ((q : InTunnel) → Elem q tunnels → is_active q ≡ true → t.priority ≤ℤ q.priority)

tunnels_with_top_priority-IsTop :
    (is_active : InTunnel → Bool) (tunnels : List InTunnel) (t : InTunnel)
    → SortedBy priority (filter is_active tunnels)
    → Elem t (tunnels_with_top_priority (filter is_active tunnels))
    → IsTop is_active tunnels t
unfolding tunnels_with_top_priority
tunnels_with_top_priority-IsTop is_active tunnels t s m =
    let (k, least) = go (filter is_active tunnels) s m in
    let (k', active) = Elem-filter is_active tunnels t k in
    (k', active, λ q j h. least q (filter-Elem is_active tunnels q j h))
  where
    go :
        (xs : List InTunnel)
        → SortedBy priority xs
        → Elem t (tunnels_with_top_priority xs)
        → Elem t xs × ((q : InTunnel) → Elem q xs → t.priority ≤ℤ q.priority)
    go [] s m = absurd m
    go (x ∷ xs) s m =
        let (k, test) =
          take_while-Elem (λ (t : InTunnel). beq_ℤ t.priority x.priority) (x ∷ xs) t m in
        let e = (beq_ℤ_iff t.priority x.priority).0 test in
        (k, λ q j. subst (λ z. z ≤ℤ q.priority) (sym e) (least q j))
      where
        least : (q : InTunnel) → Elem q (x ∷ xs) → x.priority ≤ℤ q.priority
        least q (inl p) = ≤ℤ_of_eq (ap priority p)
        least q (inr j) = All-elem (λ (y : InTunnel). x.priority ≤ℤ y.priority) xs q s.0 j

IsTop-top :
    (is_active : InTunnel → Bool) (tunnels : List InTunnel) (t : InTunnel)
    → SortedBy priority (filter is_active tunnels)
    → IsTop is_active tunnels t
    → Elem t (tunnels_with_top_priority (filter is_active tunnels))
unfolding tunnels_with_top_priority
IsTop-top is_active tunnels t s (m, active, least) =
    go (filter is_active tunnels) s (filter-Elem is_active tunnels t m active)
      (λ q k. let (j, h) = Elem-filter is_active tunnels q k in least q j h)
  where
    go :
        (xs : List InTunnel)
        → SortedBy priority xs
        → Elem t xs
        → ((q : InTunnel) → Elem q xs → t.priority ≤ℤ q.priority)
        → Elem t (tunnels_with_top_priority xs)
    go [] s m h = absurd m
    go (x ∷ xs) s m h =
        at_front x.priority (x ∷ xs) t s (≤ℤ_of_eq {a = x.priority} {b = x.priority} refl, s.0) m
          (e m)
      where
        e : Elem t (x ∷ xs) → t.priority ≡ x.priority
        e (inl p) = ap priority (sym p)
        e (inr j) =
            ≤ℤ-antisym (h x (inl refl))
              (All-elem (λ (y : InTunnel). x.priority ≤ℤ y.priority) xs t s.0 j)

-- What is selected from a sorted list is an active tunnel of the list, and no active tunnel of the list
-- goes before it.
pub select_from_tunnels-IsTop :
    (is_active : InTunnel → Bool) (tunnels : List InTunnel) (index : ℕ) (t : InTunnel)
    → SortedBy (λ (t : InTunnel). t.priority) tunnels
    → select_from_tunnels is_active tunnels index ≡ some t
    → IsTop is_active tunnels t
unfolding select_from_tunnels
select_from_tunnels-IsTop is_active tunnels index t s h =
    tunnels_with_top_priority-IsTop is_active tunnels t (filter-SortedBy is_active tunnels s)
      (get_elem?-Elem (tunnels_with_top_priority (filter is_active tunnels)) _ t h)

-- Every active tunnel of a list sorted by priority that no active tunnel goes before has its turn: there is a
-- remainder, below the number of those tunnels, such that it is selected for all indices of that
-- remainder.
pub select_from_tunnels-turn :
    (is_active : InTunnel → Bool) (tunnels : List InTunnel) (t : InTunnel)
    → SortedBy (λ (t : InTunnel). t.priority) tunnels
    → IsTop is_active tunnels t
    → (turn : ℕ) × (turn < length (tunnels_with_top_priority (filter is_active tunnels)))
      × ((index : ℕ)
          → index % length (tunnels_with_top_priority (filter is_active tunnels)) ≡ turn
          → select_from_tunnels is_active tunnels index ≡ some t)
unfolding select_from_tunnels
select_from_tunnels-turn is_active tunnels t s top =
    let m = IsTop-top is_active tunnels t (filter-SortedBy is_active tunnels s) top in
    let (i, h, e) = Elem-get_elem? (tunnels_with_top_priority (filter is_active tunnels)) t m in
    (i, h, λ index r. rw r e)

-- A selection fails only where no tunnel of the list is active.
pub select_from_tunnels-none :
    (is_active : InTunnel → Bool) (tunnels : List InTunnel) (index : ℕ)
    → select_from_tunnels is_active tunnels index ≡ none
    → (t : InTunnel) → Elem t tunnels
    → is_active t ≡ false
unfolding select_from_tunnels tunnels_with_top_priority take_while
select_from_tunnels-none is_active tunnels index h t m = elim (Bool-cases (is_active t)) [
  | inr e ↦ e
  | inl e ↦ absurd (go (filter is_active tunnels) (filter-Elem is_active tunnels t m e) h)
]
  where
    go :
        (xs : List InTunnel)
        → Elem t xs
        → ¬ (
            get_elem? (tunnels_with_top_priority xs) (index % length (tunnels_with_top_priority xs))
            ≡ none)
    go [] m h = m
    go (x ∷ xs) m h =
        let first : beq_ℤ x.priority x.priority ≡ true = (beq_ℤ_iff x.priority x.priority).1 refl in
        let rest = take_while (λ (t : InTunnel). beq_ℤ t.priority x.priority) xs in
        let (y, e) = get_elem?-below (x ∷ rest) (index % length (x ∷ rest)) (omega arith) in
        cc (rw (first, take_while) at h)
