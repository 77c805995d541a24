-- ===== src/Route/Rule/Subdomain.antt =====
-- The test of a domain rule (src/lib/route/rule.rs) decides "the domain itself or a subdomain".
use plug2proxy.Prelude.{
  ℕ, zero, suc, ◌-◌, ◌≡◌, ◌↔◌, refl, ap, sym, ◌∙◌, ◌⊎◌, inl, inr, ◌==◌, ==_eq, ==_refl, nat_eq,
  list_eq, true, Bool-cases, [], ◌∷◌, ◌++◌, length, length-append, arith, subst,
}
use plug2proxy.Net.{Text}
use plug2proxy.Route.Rule.Domain.{take, drop, ends_with, dot}
use plug2proxy.Route.Rule.{matches_domain}

take-append-drop : (n : ℕ) (s : Text) → take n s ++ drop n s ≡ s
unfolding take drop
take-append-drop zero s = refl
take-append-drop (suc n) [] = refl
take-append-drop (suc n) (c ∷ s) = ap (◌∷◌ c) (take-append-drop n s)

take_exact : (s t : Text) → take (length s) (s ++ t) ≡ s
unfolding take
take_exact [] t = refl
take_exact (c ∷ s) t = ap (◌∷◌ c) (take_exact s t)

drop_exact : (s t : Text) → drop (length s) (s ++ t) ≡ t
unfolding drop
drop_exact [] t = refl
drop_exact (c ∷ s) t = drop_exact s t

-- What is before a suffix has the rest of the length.
length_before : (s t : Text) → length (s ++ t) - length t ≡ length s
length_before s t = omega (arith, length-append s t)

ends_with-append : (s t : Text) → ends_with (s ++ t) t ≡ true
unfolding ends_with
ends_with-append s t =
    rw (length_before s t, drop_exact s t) (ground (arith, length-append s t, ==_refl t))

ends_with-split : (s t : Text) → ends_with s t ≡ true → take (length s - length t) s ++ t ≡ s
unfolding ends_with
ends_with-split s t h =
    ap (◌++◌ (take (length s - length t) s))
      (sym (==_eq (drop (length s - length t) s) t (ground arith)))
    ∙ take-append-drop (length s - length t) s

-- The domain itself, or a name below it.
abbrev pub IsWithin : Text → Text → Type 0
IsWithin domain match_domain =
    (domain ≡ match_domain) ⊎ ((sub : Text) × (sub ++ dot ++ match_domain ≡ domain))

matches_domain_sound :
    (domain match_domain : Text)
    → matches_domain domain match_domain ≡ true
    → IsWithin domain match_domain
unfolding matches_domain
matches_domain_sound domain match_domain h = elim (Bool-cases (domain == match_domain)) [
  | inl e ↦ inl (==_eq domain match_domain e)
  | inr e ↦
      let before = take (length domain - length match_domain) domain in
      let suffix : ends_with domain match_domain ≡ true = ground arith in
      let dotted : ends_with before dot ≡ true = ground arith in
      inr (
        take (length before - length dot) before,
        ap (λ p. p ++ match_domain) (ends_with-split before dot dotted)
            ∙ ends_with-split domain match_domain suffix,
      )
]

matches_domain-subdomain :
    (sub match_domain : Text) → matches_domain (sub ++ dot ++ match_domain) match_domain ≡ true
unfolding matches_domain
matches_domain-subdomain sub match_domain =
    rw
      (
        length_before (sub ++ dot) match_domain,
        take_exact (sub ++ dot) match_domain,
        ends_with-append (sub ++ dot) match_domain,
        ends_with-append sub dot,
      )
      (ground arith)

matches_domain_self : (domain : Text) → matches_domain domain domain ≡ true
unfolding matches_domain
matches_domain_self domain = rw (==_refl domain)

-- An entry of a domain rule matches exactly the domain itself and what ends in a dot and the domain.
pub matches_domain_iff :
    (domain match_domain : Text)
    → (matches_domain domain match_domain ≡ true) ↔ IsWithin domain match_domain
matches_domain_iff domain match_domain = (matches_domain_sound domain match_domain, complete)
  where
    complete : IsWithin domain match_domain → matches_domain domain match_domain ≡ true
    complete (inl e) = subst (λ d. matches_domain domain d ≡ true) e (matches_domain_self domain)
    complete (inr (sub, e)) =
        subst (λ d. matches_domain d match_domain ≡ true) e
          (matches_domain-subdomain sub match_domain)
