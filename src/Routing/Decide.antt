-- ===== src/Routing/Decide.antt =====
-- `decide` of orchestrator/src/solver_routing.ts: the candidates are evaluated in turn, the eligible
-- ones sorted, and capital is reserved with the first.
use ma_at.Prelude.{
  ℕ, ◌+◌, ◌*◌, Bool, true, false, Option, none, some, List, [], ◌∷◌, ◌++◌, if◌then◌else◌, keep_if,
  Text, addr_key, or_else,
}
use Prim.Native.Nat.{Ordering, compare}
use ma_at.Prelude.Dict.{Dict}
use ma_at.Prelude.Int.{ℤ, pos, pos_part, neg_part, ◌-ℤ◌}
use ma_at.IntentStatus.{OnChainIntent}
use ma_at.ProofOutput.{ProofOutputJson}
use ma_at.Gate.{evaluate_arbitrum_gate, required_collateral}
use ma_at.ArbitrumLedger.{ArbitrumLedgerEntry}
use ma_at.SolverStats.Record.{Rate, ReadSolverRecordResult}
use ma_at.SolverStats.Tier.{compute_tier, tier_cap_wei}
use ma_at.Routing.Book.{Book, reserve, reserved_wei}
use ma_at.Routing.Candidate.{
  Reason, balance_read_failed, track_record_unavailable, CandidateRead, CandidateEvaluation,
  eligible, Policy, reservation_wei, intent_failure, in_flight, ledger_reserved_wei, gate_params,
  without_balance, with_capital, approval_reasons, record_of, cap_reasons,
}

-- What a decision is made from: the readings, the proof, the clock and the ledger. `decide` keeps
-- of `posting` what is in flight, before it evaluates a candidate.
pub record Inputs : Type 0 where
  pub policy : Policy
  pub json : ProofOutputJson
  pub now_sec : ℕ
  pub now_ms : ℕ
  pub on_chain : Option OnChainIntent
  pub stats : Option ReadSolverRecordResult
  pub posting : Dict ArbitrumLedgerEntry  -- what getPostingCollateralEntries returns

module _ (i : Inputs) where
  -- Balance less reservations, which drops the lapsed ones from the book.
  unfoldable pub available_of : Text → ℕ → Book → ℤ × Book
  available_of solver balance b =
      let (reserved, b') = reserved_wei solver i.now_ms b in
      (pos balance -ℤ pos reserved -ℤ pos (ledger_reserved_wei i.policy solver i.posting), b')

  unfoldable pub gate_reasons : Option ℤ → List Reason
  gate_reasons none =
      balance_read_failed
      ∷ without_balance (evaluate_arbitrum_gate i.json (gate_params i.policy i.now_sec (pos 0)))
  gate_reasons (some available) =
      with_capital available (reservation_wei i.policy i.json)
        (evaluate_arbitrum_gate i.json (gate_params i.policy i.now_sec available))

  unfoldable pub judge :
      Text → Option Bool → Option ℤ → Option ReadSolverRecordResult → CandidateEvaluation
  unfolding gate_reasons
  judge solver approved available none = record {
    solver = solver;
    reasons =
        approval_reasons approved
        ++ (gate_reasons available
            ++ (intent_failure i.on_chain ++ (track_record_unavailable ∷ [])));
    tier = none;
    tier_cap_wei = none;
    success_rate = none;
    available_wei = available;
  }
  judge solver approved available (some stats) =
      let r = record_of solver stats in
      let tier =
        compute_tier (i.policy.get_onboarding_tier solver) r i.policy.tier_config stats.complete in
      let cap = tier_cap_wei tier i.policy.max_transfer_wei i.policy.tier_cap_pct in
      record {
        solver = solver;
        reasons =
            approval_reasons approved
            ++ (gate_reasons available
                ++ (intent_failure i.on_chain ++ cap_reasons tier cap i.json.amount));
        tier = some tier;
        tier_cap_wei = some cap;
        success_rate = r.success_rate;
        available_wei = available;
      }

  abbrev pub evaluate_read : Text → Option Bool → Option ℕ → Book → CandidateEvaluation × Book
  evaluate_read solver approved none b = (judge solver approved none i.stats, b)
  evaluate_read solver approved (some balance) b =
      let (available, b') = available_of solver balance b in
      (judge solver approved (some available) i.stats, b')

  unfoldable pub evaluate : CandidateRead → Book → CandidateEvaluation × Book
  unfolding judge available_of
  evaluate r b = evaluate_read r.solver r.approved r.balance b

  -- reads.map(…), with the book passed on
  unfoldable pub evaluate_all : List CandidateRead → Book → List CandidateEvaluation × Book
  unfolding evaluate
  evaluate_all [] b = ([], b)
  evaluate_all (r ∷ rs) b =
      let (e, b') = evaluate r b in let (es, b'') = evaluate_all rs b' in (e ∷ es, b'')

-- cmpBig, and its like for rates and addresses: `||` takes the next comparison on a tie.
abbrev pub or_next : Ordering → Ordering → Ordering
or_next Ordering.eq next = next
or_next first next = first

abbrev pub cmp_rate : Option Rate → Option Rate → Ordering
cmp_rate none none = Ordering.eq
cmp_rate none (some b) = Ordering.lt
cmp_rate (some a) none = Ordering.gt
cmp_rate (some a) (some b) = compare (a.num * b.den) (b.num * a.den)

abbrev pub cmp_ℤ : ℤ → ℤ → Ordering
cmp_ℤ a b = compare (pos_part a + neg_part b) (pos_part b + neg_part a)

unfoldable pub cmp_text : Text → Text → Ordering
cmp_text [] [] = Ordering.eq
cmp_text [] (y ∷ ys) = Ordering.lt
cmp_text (x ∷ xs) [] = Ordering.gt
cmp_text (x ∷ xs) (y ∷ ys) = or_next (compare x y) (cmp_text xs ys)

abbrev pub cap_of : CandidateEvaluation → ℕ
cap_of e = or_else e.tier_cap_wei 0

abbrev pub capital_of : CandidateEvaluation → ℤ
capital_of e = or_else e.available_wei (pos 0)

-- The comparison that the survivors are sorted by. An eligible one has a cap and capital.
unfoldable pub cmp_candidates : CandidateEvaluation → CandidateEvaluation → Ordering
unfolding cmp_text
cmp_candidates a b = or_next (compare (cap_of a) (cap_of b)) (
    or_next (cmp_rate b.success_rate a.success_rate) (
      or_next (cmp_ℤ (capital_of b) (capital_of a))
        (cmp_text (addr_key a.solver) (addr_key b.solver))))

abbrev pub is_after : Ordering → Bool
is_after Ordering.gt = true
is_after _ = false

-- Array.sort, which is stable.
unfoldable pub insert : CandidateEvaluation → List CandidateEvaluation → List CandidateEvaluation
unfolding cmp_candidates
insert e [] = e ∷ []
insert e (f ∷ fs) =
    let rest = insert e fs in if is_after (cmp_candidates e f) then f ∷ rest else e ∷ f ∷ fs

unfoldable pub sort : List CandidateEvaluation → List CandidateEvaluation
unfolding insert
sort [] = []
sort (e ∷ es) = insert e (sort es)

pub data Why : Type 0 where
  only_eligible smallest_cap higher_rate more_capital lowest_address : Why

abbrev is_tie : Ordering → Bool
is_tie Ordering.eq = true
is_tie _ = false

unfoldable pub why : CandidateEvaluation → List CandidateEvaluation → Why
why winner [] = only_eligible
why winner (runner_up ∷ rest) =
    if is_tie (compare (cap_of winner) (cap_of runner_up))
    then if is_tie (cmp_rate winner.success_rate runner_up.success_rate)
      then if is_tie (cmp_ℤ (capital_of winner) (capital_of runner_up))
        then lowest_address
        else more_capital
      else higher_rate
    else smallest_cap

-- `reason` of a selection, before it is printed.
pub data Outcome : Type 0 where
  no_eligible : Outcome
  selected : Text → Option ℕ → Why → Outcome

pub record SelectionResult : Type 0 where
  pub outcome : Outcome
  pub collateral_wei : ℕ
  pub reservation : ℕ
  pub candidates : List CandidateEvaluation

module _ (i : Inputs) (id : Text) where
  abbrev pub result : Outcome → List CandidateEvaluation → SelectionResult
  result outcome evaluations = record {
    outcome = outcome;
    collateral_wei = required_collateral i.json.amount;
    reservation = reservation_wei i.policy i.json;
    candidates = evaluations;
  }

  abbrev pub choose :
      List CandidateEvaluation → List CandidateEvaluation → Book → SelectionResult × Book
  choose evaluations [] b = (result no_eligible evaluations, b)
  choose evaluations (winner ∷ rest) b = (
    result (selected winner.solver winner.tier (why winner rest)) evaluations,
    reserve winner.solver id (reservation_wei i.policy i.json) b,
  )

  unfoldable pub decide : List CandidateRead → Book → SelectionResult × Book
  unfolding evaluate_all sort why
  decide reads b =
      let (evaluations, b') = evaluate_all (record i { posting = in_flight b i.posting }) reads b in
      choose evaluations (sort (keep_if eligible evaluations)) b'
