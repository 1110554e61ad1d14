-- ===== src/Routing/Select.antt =====
-- The solver that `decide` of orchestrator/src/solver_routing.ts selects.
use ma_at.Prelude.{
  ℕ, ◌≤◌, ◌≡◌, refl, sym, ap, subst, inl, true, false, Option, some, List, [], ◌∷◌, arith, Text,
  All, Any, Any-map, keep_if,
}
use ma_at.Routing.Book.{Book}
use ma_at.Routing.Candidate.{CandidateRead, CandidateEvaluation, eligible, in_flight}
use ma_at.Routing.Decide.{
  Inputs, evaluate_all, cap_of, sort, Why, Outcome, no_eligible, selected, choose, decide,
}
use ma_at.Routing.Capital.{held}
use ma_at.Routing.Order.{
  Leads, sort-Leads, sort-Any, All-sort, Leads-eligible, Any-survivor, none-eligible, sort-empty,
}
use ma_at.Routing.Backing.{Covers, evaluate_all-held}

-- The evaluations that a decision reports.
abbrev evaluations_of : Inputs → List CandidateRead → Book → List CandidateEvaluation
evaluations_of i reads b = (evaluate_all (record i { posting = in_flight b i.posting }) reads b).0

-- A solver that was evaluated as eligible, with no smaller cap among the eligible.
abbrev Cheapest : List CandidateEvaluation → Text → Type 0
Cheapest es s =
    Any
      (λ e.
        (e.solver ≡ s)
        × ((eligible e ≡ true) × All (λ f. eligible f ≡ true → cap_of e ≤ cap_of f) es))
      es

first-Cheapest :
    (es : List CandidateEvaluation) (e : CandidateEvaluation) (rest : List CandidateEvaluation)
    → sort (keep_if eligible es) ≡ e ∷ rest
    → Cheapest es e.solver
first-Cheapest es e rest q =
    Any-map _ _ es
      (λ f (same, ok). (
        ap (λ g. g.solver) same,
        (ok, subst (λ g. All (λ h. eligible h ≡ true → cap_of g ≤ cap_of h) es) (sym same) bound),
      ))
      (Any-survivor (λ f. f ≡ e) es
        (sort-Any (λ f. f ≡ e) (keep_if eligible es) (subst (Any (λ f. f ≡ e)) (sym q) (inl refl))))
  where
    leads : All (λ f. cap_of e ≤ cap_of f) (e ∷ rest)
    leads = (omega arith, subst Leads q (sort-Leads (keep_if eligible es)))

    bound : All (λ f. eligible f ≡ true → cap_of e ≤ cap_of f) es
    bound = Leads-eligible e es (
        All-sort (λ f. cap_of e ≤ cap_of f) (keep_if eligible es)
          (subst (All (λ f. cap_of e ≤ cap_of f)) (sym q) leads))

-- The solver of an outcome, and of none that nobody is.
abbrev solver_of : Outcome → Text → Text
solver_of no_eligible other = other
solver_of (selected s tier w) other = s

-- The reading of an approved solver whose balance covers an amount.
abbrev Backs : Text → ℕ → CandidateRead → Type 0
Backs s amount r = (r.solver ≡ s) × ((r.approved ≡ some true) × Covers r.balance amount)

module _ (i : Inputs) (id : Text) where
  -- Where nobody is selected, no candidate is eligible, and the book holds back of every solver what
  -- it held back before.
  pub decide-none :
      (reads : List CandidateRead) (b : Book)
      → (decide i id reads b).0.outcome ≡ no_eligible
      → All (λ e. eligible e ≡ false) (decide i id reads b).0.candidates
        × ((s : Text) → held s i.now_ms (decide i id reads b).1 ≡ held s i.now_ms b)
  unfolding decide
  decide-none reads b = go (sort (keep_if eligible es)) refl
    where
      es : List CandidateEvaluation
      es = evaluations_of i reads b

      b' : Book
      b' = (evaluate_all (record i { posting = in_flight b i.posting }) reads b).1

      go :
          (survivors : List CandidateEvaluation)
          → sort (keep_if eligible es) ≡ survivors
          → (choose i id es survivors b').0.outcome ≡ no_eligible
          → All (λ e. eligible e ≡ false) (choose i id es survivors b').0.candidates
            × ((s : Text) → held s i.now_ms (choose i id es survivors b').1 ≡ held s i.now_ms b)
      go [] q h = (
        none-eligible es (sort-empty _ q),
        λ s. evaluate_all-held (record i { posting = in_flight b i.posting }) s reads b,
      )
      go (e ∷ rest) q h = ground arith

  -- The selected solver is one of the candidates, eligible, and no eligible one has a smaller cap.
  pub decide-cheapest :
      (reads : List CandidateRead) (b : Book) (s : Text) (tier : Option ℕ) (w : Why)
      → (decide i id reads b).0.outcome ≡ selected s tier w
      → Any
          (λ e.
            (e.solver ≡ s)
            × ((eligible e ≡ true)
                × All
                    (λ f. eligible f ≡ true → cap_of e ≤ cap_of f)
                    (decide i id reads b).0.candidates))
          (decide i id reads b).0.candidates
  unfolding decide
  decide-cheapest reads b s tier w = go (sort (keep_if eligible es)) refl
    where
      es : List CandidateEvaluation
      es = evaluations_of i reads b

      b' : Book
      b' = (evaluate_all (record i { posting = in_flight b i.posting }) reads b).1

      go :
          (survivors : List CandidateEvaluation)
          → sort (keep_if eligible es) ≡ survivors
          → (choose i id es survivors b').0.outcome ≡ selected s tier w
          → Any
              (λ e.
                (e.solver ≡ s)
                × ((eligible e ≡ true)
                    × All
                        (λ f. eligible f ≡ true → cap_of e ≤ cap_of f)
                        (choose i id es survivors b').0.candidates))
              (choose i id es survivors b').0.candidates
      go [] q h = ground arith
      go (e ∷ rest) q h =
          subst (Cheapest es) (ap (λ o. solver_of o s) h) (first-Cheapest es e rest q)
