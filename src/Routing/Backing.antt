-- ===== src/Routing/Backing.antt =====
-- The capital that stands behind the eligible candidates of orchestrator/src/solver_routing.ts.
use ma_at.Prelude.{
  ℕ, ◌+◌, ◌≤◌, ◌≡◌, refl, sym, ◌∙◌, subst, inl, inr, Bool, true, Option, none, some, List, [], ◌∷◌,
  ◌++◌, arith, Text, is_empty, append-empty, All, Any, All-map, Any-map,
}
use ma_at.Prelude.Int.{ℤ, pos, ◌-ℤ◌, ◌≤ℤ◌}
use ma_at.Gate.{required_collateral}
use ma_at.SolverStats.Record.{ReadSolverRecordResult}
use ma_at.Routing.Book.{Book}
use ma_at.Routing.Candidate.{
  Reason, CandidateRead, CandidateEvaluation, eligible, approval_reasons, reservation_wei,
  ledger_reserved_wei,
}
use ma_at.Routing.Decide.{
  Inputs, judge, gate_reasons, available_of, evaluate_read, evaluate, evaluate_all,
}
use ma_at.Routing.Capital.{held, held-reserved_wei}
use ma_at.Routing.Eligible.{gate-empty_iff}

-- A balance that was read covers an amount.
abbrev pub Covers : Option ℕ → ℕ → Type 0
Covers none needed = ⊥
Covers (some balance) needed = needed ≤ balance

abbrev Backing : ℕ → Option ℤ → Type 0
Backing needed none = ⊥
Backing needed (some available) = pos needed ≤ℤ available

approval-given : (a : Option Bool) → is_empty (approval_reasons a) ≡ true → a ≡ some true
unfolding approval_reasons
approval-given none h = ground arith
approval-given (some a) h = ground arith

module _ (i : Inputs) where
  gate-Backing :
      (available : Option ℤ)
      → is_empty (gate_reasons i available) ≡ true
      → Backing (reservation_wei i.policy i.json) available
  unfolding gate_reasons reservation_wei required_collateral
  gate-Backing none h = ground arith
  gate-Backing (some available) h =
      let (token, amount, capital, margin) =
        (gate-empty_iff i.json i.policy i.now_sec available).0 h in
      capital

  reasons-Backing :
      (approved : Option Bool) (available : Option ℤ) (more : List Reason)
      → is_empty (approval_reasons approved ++ (gate_reasons i available ++ more)) ≡ true
      → (approved ≡ some true) × Backing (reservation_wei i.policy i.json) available
  reasons-Backing approved available more h =
      let (a, rest) = append-empty (approval_reasons approved) _ h in
      (
        approval-given approved a,
        gate-Backing available (append-empty (gate_reasons i available) more rest).0,
      )

  judge-Backing :
      (solver : Text) (approved : Option Bool) (available : Option ℤ)
      (stats : Option ReadSolverRecordResult)
      → eligible (judge i solver approved available stats) ≡ true
      → (approved ≡ some true) × Backing (reservation_wei i.policy i.json) available
  unfolding judge eligible
  judge-Backing solver approved available none h = reasons-Backing approved available _ h
  judge-Backing solver approved available (some stats) h = reasons-Backing approved available _ h

  judge-solver :
      (solver : Text) (approved : Option Bool) (available : Option ℤ)
      (stats : Option ReadSolverRecordResult)
      → (judge i solver approved available stats).solver ≡ solver
  unfolding judge
  judge-solver solver approved available none = refl
  judge-solver solver approved available (some stats) = refl

  -- What a winner needs of a balance: its reservation on top of what is held back already.
  abbrev pub needed : Text → Book → ℕ
  needed solver b =
      reservation_wei i.policy i.json
      + held solver i.now_ms b
      + ledger_reserved_wei i.policy solver i.posting

  -- The reading that an evaluation rests on.
  abbrev pub RestsOn : Book → CandidateEvaluation → CandidateRead → Type 0
  RestsOn b e r =
      (r.solver ≡ e.solver) × ((r.approved ≡ some true) × Covers r.balance (needed e.solver b))

  three_way :
      (balance wei reserved ledger : ℕ)
      → pos wei ≤ℤ (pos balance -ℤ pos reserved -ℤ pos ledger)
      → wei + reserved + ledger ≤ balance
  unfolding ◌-ℤ◌
  three_way balance wei reserved ledger h = ground arith

  evaluate-RestsOn :
      (r : CandidateRead) (b : Book)
      → eligible (evaluate i r b).0 ≡ true
      → RestsOn b (evaluate i r b).0 r
  unfolding evaluate available_of held
  evaluate-RestsOn r b = go r.balance
    where
      go :
          (balance : Option ℕ)
          → eligible (evaluate_read i r.solver r.approved balance b).0 ≡ true
          → (r.solver ≡ (evaluate_read i r.solver r.approved balance b).0.solver)
            × ((r.approved ≡ some true)
                × Covers balance
                    (needed (evaluate_read i r.solver r.approved balance b).0.solver b))
      go none h = elim (judge-Backing r.solver r.approved none i.stats h).1 [ ]
      go (some balance) h =
          let left = some (available_of i r.solver balance b).0 in
          let (approved, capital) = judge-Backing r.solver r.approved left i.stats h in
          let same = judge-solver r.solver r.approved left i.stats in
          (sym same, (approved, rw same (three_way balance _ _ _ capital)))

  evaluate-held :
      (s : Text) (r : CandidateRead) (b : Book)
      → held s i.now_ms (evaluate i r b).1 ≡ held s i.now_ms b
  unfolding evaluate available_of
  evaluate-held s r b = go r.balance
    where
      go :
          (balance : Option ℕ)
          → held s i.now_ms (evaluate_read i r.solver r.approved balance b).1 ≡ held s i.now_ms b
      go none = refl
      go (some balance) = held-reserved_wei s r.solver i.now_ms b

  pub evaluate_all-held :
      (s : Text) (rs : List CandidateRead) (b : Book)
      → held s i.now_ms (evaluate_all i rs b).1 ≡ held s i.now_ms b
  unfolding evaluate_all
  evaluate_all-held s [] b = refl
  evaluate_all-held s (r ∷ rs) b = evaluate_all-held s rs (evaluate i r b).1 ∙ evaluate-held s r b

  -- Every eligible evaluation rests on the reading of an approved solver whose balance covers it.
  pub evaluate_all-RestsOn :
      (rs : List CandidateRead) (b : Book)
      → All (λ e. eligible e ≡ true → Any (RestsOn b e) rs) (evaluate_all i rs b).0
  unfolding evaluate_all
  evaluate_all-RestsOn [] b = tt
  evaluate_all-RestsOn (r ∷ rs) b = (
    λ h. inl (evaluate-RestsOn r b h),
    All-map _ _ (evaluate_all i rs (evaluate i r b).1).0 (λ e k h. inr (earlier e (k h)))
        (evaluate_all-RestsOn rs (evaluate i r b).1),
  )
    where
      earlier :
          (e : CandidateEvaluation) → Any (RestsOn (evaluate i r b).1 e) rs → Any (RestsOn b e) rs
      earlier e = Any-map _ _ rs λ q (same, (approved, covers)). (
        same,
        (
          approved,
          subst
              (λ h. Covers q.balance (
                reservation_wei i.policy i.json
                + h
                + ledger_reserved_wei i.policy e.solver i.posting))
              (evaluate-held e.solver r b) covers,
        ),
      )
