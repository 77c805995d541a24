-- ===== src/Route/Router/Groups.antt =====
-- The loop of `update_rules_cache` (src/lib/route/router.rs) cuts a sorted list into its runs of
-- equal priority.
use plug2proxy.Prelude.{
  ℤ, ◌<ℤ◌, ◌≤ℤ◌, inl, inr, subst, beq_ℤ, beq_ℤ_iff, ◌≡◌, ◌≢◌, refl, ◌∙◌, ap, sym, true, false,
  Bool-cases, some, none, List, [], ◌∷◌, ◌++◌, arith, All, All-append, SortedBy, flat_map,
}
use mathlib.Core.Option
use mathlib.Core.List.{append_assoc}
use plug2proxy.Route.Rule.{RuleTrait}
use plug2proxy.Route.Router.{push_last, group_loop}

module _ {R : Type 0} where
  pub push_last-append :
      (done : List (List R)) (group : List R) (rule : R)
      → push_last (done ++ group ∷ []) rule ≡ some (done ++ (group ++ rule ∷ []) ∷ [])
  unfolding push_last
  push_last-append [] group rule = refl
  push_last-append (g ∷ []) group rule = refl
  push_last-append (g ∷ h ∷ done) group rule =
      ap (Option.map (◌∷◌ g)) (push_last-append (h ∷ done) group rule)

  append-ne-nil : (xs : List R) (x : R) → xs ++ x ∷ [] ≢ []
  append-ne-nil [] x e = cc
  append-ne-nil (y ∷ xs) x e = cc

  abbrev pub concat : List (List R) → List R
  concat = flat_map (λ g. g)

module _ {R : Type 0} (t : RuleTrait R) where
  -- The runs of a list, with the run of priority `p` that has begun.
  pub runs_from : List R → ℤ → List R → List (List R)
  runs_from group p [] = group ∷ []
  runs_from group p (rule ∷ rules) = elim (beq_ℤ p (t.priority rule)) [
    | true ↦ runs_from (group ++ rule ∷ []) p rules
    | false ↦ group ∷ runs_from (rule ∷ []) (t.priority rule) rules
  ]

  group_loop-runs_from :
      (done : List (List R)) (group : List R) (p : ℤ) (rules : List R)
      → group_loop t (done ++ group ∷ []) (some p) rules ≡ some (done ++ runs_from group p rules)
  unfolding group_loop runs_from
  group_loop-runs_from done group p [] = refl
  group_loop-runs_from done group p (rule ∷ rules) = elim (Bool-cases (beq_ℤ p (t.priority rule))) [
    | inl e ↦
        rw (e, group_loop, runs_from, push_last-append done group rule)
          (group_loop-runs_from done (group ++ rule ∷ []) p rules)
    | inr e ↦
        rw (e, group_loop, runs_from)
          (group_loop-runs_from (done ++ group ∷ []) (rule ∷ []) (t.priority rule) rules
            ∙ ap some (append_assoc done (group ∷ []) _))
  ]

  pub runs : List R → List (List R)
  runs [] = []
  runs (rule ∷ rules) = runs_from (rule ∷ []) (t.priority rule) rules

  -- The loop never meets the `unwrap` of an empty list.
  pub group_loop-runs : (rules : List R) → group_loop t [] none rules ≡ some (runs rules)
  unfolding group_loop runs
  group_loop-runs [] = refl
  group_loop-runs (rule ∷ rules) = group_loop-runs_from [] (rule ∷ []) (t.priority rule) rules

  concat-runs_from :
      (group : List R) (p : ℤ) (rules : List R) → concat (runs_from group p rules) ≡ group ++ rules
  unfolding runs_from
  concat-runs_from group p [] = refl
  concat-runs_from group p (rule ∷ rules) = elim (Bool-cases (beq_ℤ p (t.priority rule))) [
    | inl e ↦
        rw (e, runs_from)
          (concat-runs_from (group ++ rule ∷ []) p rules ∙ append_assoc group (rule ∷ []) rules)
    | inr e ↦
        rw (e, runs_from) (ap (◌++◌ group) (concat-runs_from (rule ∷ []) (t.priority rule) rules))
  ]

  pub concat-runs : (rules : List R) → concat (runs rules) ≡ rules
  unfolding runs
  concat-runs [] = refl
  concat-runs (rule ∷ rules) = concat-runs_from (rule ∷ []) (t.priority rule) rules

  -- A group holds rules of one priority, at least one.
  pub record IsRun (p : ℤ) (group : List R) : Type 0 where
    pub inhabited : group ≢ []
    pub uniform : All (λ rule. t.priority rule ≡ p) group

  -- Groups of one priority each, which rises from group to group, all above `p`.
  abbrev pub RunsAbove : ℤ → List (List R) → Type 0
  RunsAbove p [] = Unit
  RunsAbove p (group ∷ groups) = (q : ℤ) × (p <ℤ q) × IsRun q group × RunsAbove q groups

  abbrev pub Runs : List (List R) → Type 0
  Runs [] = Unit
  Runs (group ∷ groups) = (q : ℤ) × IsRun q group × RunsAbove q groups

  single : (rule : R) → IsRun (t.priority rule) (rule ∷ [])
  single rule = record { inhabited = λ e. cc; uniform = (refl, tt) }

  extended :
      (group : List R) (p : ℤ) (rule : R)
      → IsRun p group
      → p ≡ t.priority rule
      → IsRun p (group ++ rule ∷ [])
  extended group p rule run e = record {
    inhabited = append-ne-nil group rule;
    uniform = All-append _ group (rule ∷ []) run.uniform (sym e, tt);
  }

  -- The run that has begun is the first of the runs.
  abbrev FirstRun : List R → ℤ → List R → Type 0
  FirstRun group p rules =
      (g : List R) × (gs : List (List R)) × (runs_from group p rules ≡ g ∷ gs)
      × IsRun p g
      × RunsAbove p gs

  next :
      (p : ℤ) (group : List R) (rule : R) (rules : List R)
      → beq_ℤ p (t.priority rule) ≡ false
      → p ≤ℤ t.priority rule
      → FirstRun (rule ∷ []) (t.priority rule) rules
      → RunsAbove p (runs_from (rule ∷ []) (t.priority rule) rules)
  next p group rule rules e h (g, gs, eq, run, above) =
      subst (RunsAbove p) (sym eq) (t.priority rule, ground arith, run, above)

  runs_from-Runs :
      (group : List R) (p : ℤ) (rules : List R)
      → IsRun p group
      → All (λ rule. p ≤ℤ t.priority rule) rules
      → SortedBy t.priority rules
      → FirstRun group p rules
  unfolding runs_from
  runs_from-Runs group p [] run low sorted = (group, [], refl, run, tt)
  runs_from-Runs group p (rule ∷ rules) run low sorted =
      elim (Bool-cases (beq_ℤ p (t.priority rule))) [
        | inl e ↦
            rw (e, runs_from)
              (runs_from-Runs (group ++ rule ∷ []) p rules
                (extended group p rule run ((beq_ℤ_iff p (t.priority rule)).0 e)) low.1 sorted.1)
        | inr e ↦
            rw (e, runs_from)
              (
                group,
                runs_from (rule ∷ []) (t.priority rule) rules,
                refl,
                run,
                next p group rule rules e low.0 (
                    runs_from-Runs (rule ∷ []) (t.priority rule) rules (single rule) sorted.0
                      sorted.1),
              )
      ]

  pub runs-Runs : (rules : List R) → SortedBy t.priority rules → Runs (runs rules)
  unfolding runs
  runs-Runs [] sorted = tt
  runs-Runs (rule ∷ rules) sorted =
      let (g, gs, e, run, above) =
        runs_from-Runs (rule ∷ []) (t.priority rule) rules (single rule) sorted.0 sorted.1 in
      subst Runs (sym e) (t.priority rule, run, above)
