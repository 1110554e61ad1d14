-- ===== src/Routing/Candidate.antt =====
-- What selectSolver of orchestrator/src/solver_routing.ts works on, and what `decide` says of one
-- candidate. A reading that failed is none; a reason is kept as data and printed in Routing/Reason.
use ma_at.Prelude.{
  ℕ, ◌+◌, Bool, true, false, not, ◌&&◌, Option, none, some, List, [], ◌∷◌, ◌==◌, if◌then◌else◌, ltb,
  is_empty, keep_if, Text, text_eq, addr_key, or_else,
}
use ma_at.Prelude.Dict
use ma_at.Prelude.Dict.{Dict}
use ma_at.Prelude.Int.{ℤ}
use ma_at.IntentStatus.{OnChainIntent, intent_status_pending, is_zero_address}
use ma_at.ProofOutput.{ProofOutputJson}
use ma_at.Gate.{GateCheck, ArbitrumGateParams, required_collateral}
use ma_at.ArbitrumLedger.{ArbitrumLedgerEntry}
use ma_at.SolverStats.Record.{
  Rate, SolverRecord, ReadSolverRecordResult, empty_record_accumulator, to_record,
}
use ma_at.SolverStats.Tier.{TierConfig, TierCapPct}
use ma_at.Routing.Book.{Book, has_intent}

pub data Reason : Type 0 where
  approval_read_failed not_approved balance_read_failed : Reason
  gate_check : GateCheck → Reason
  insufficient_available_capital : ℤ → ℕ → Reason
  intent_read_failed : Reason
  intent_not_open_onchain : ℕ → Text → Reason
  track_record_unavailable : Reason
  tier_cap_exceeded : ℕ → ℕ → ℕ → Reason

pub record CandidateRead : Type 0 where
  pub solver : Text
  pub approved : Option Bool
  pub balance : Option ℕ

pub record CandidateEvaluation : Type 0 where
  pub solver : Text
  pub reasons : List Reason
  pub tier : Option ℕ
  pub tier_cap_wei : Option ℕ
  pub success_rate : Option Rate
  pub available_wei : Option ℤ

-- `eligible` of an evaluation
unfoldable pub eligible : CandidateEvaluation → Bool
eligible e = is_empty e.reasons

-- The values of SelectionDeps that are not readings.
pub record Policy : Type 0 where
  pub max_transfer_wei : ℕ
  pub gas_buffer_wei : ℕ
  pub delivery_margin_sec : ℕ
  pub tier_config : TierConfig
  pub tier_cap_pct : TierCapPct
  pub get_onboarding_tier : Text → ℕ

-- collateral + gas buffer
unfoldable pub reservation_wei : Policy → ProofOutputJson → ℕ
reservation_wei policy json = required_collateral json.amount + policy.gas_buffer_wei

unfoldable pub intent_failure : Option OnChainIntent → List Reason
intent_failure none = intent_read_failed ∷ []
intent_failure (some o) =
    if (o.status == intent_status_pending) && is_zero_address o.solver
    then []
    else intent_not_open_onchain o.status o.solver ∷ []

-- The signed collateral transactions that the book does not count already.
unfoldable pub in_flight : Book → Dict ArbitrumLedgerEntry → Dict ArbitrumLedgerEntry
in_flight b entries = keep_if (λ e. not (has_intent e.0 b)) entries

-- `entry.solver && addrKey(entry.solver) !== addrKey(solver)`; an empty string is no solver.
abbrev pub is_of_other : Text → Option Text → Bool
is_of_other solver none = false
is_of_other solver (some s) = not (is_empty s) && not (text_eq (addr_key s) (addr_key solver))

unfoldable pub ledger_reserved_wei : Policy → Text → Dict ArbitrumLedgerEntry → ℕ
unfolding required_collateral
ledger_reserved_wei policy solver [] = 0
ledger_reserved_wei policy solver ((id, e) ∷ es) =
    let rest = ledger_reserved_wei policy solver es in
    if is_of_other solver e.solver
    then rest
    else or_else e.routing.collateral_wei (required_collateral policy.max_transfer_wei)
      + policy.gas_buffer_wei
      + rest

abbrev pub is_insufficient : GateCheck → Bool
is_insufficient GateCheck.insufficient_solver_balance = true
is_insufficient _ = false

abbrev pub gate_params : Policy → ℕ → ℤ → ArbitrumGateParams
gate_params policy now_sec balance = record {
  max_transfer_wei = policy.max_transfer_wei;
  solver_balance_wei = balance;
  gas_buffer_wei = policy.gas_buffer_wei;
  now_sec = now_sec;
  delivery_margin_sec = policy.delivery_margin_sec;
}

-- The failed checks as reasons, without or with the balance.
unfoldable pub without_balance : List GateCheck → List Reason
without_balance [] = []
without_balance (c ∷ cs) =
    let rest = without_balance cs in if is_insufficient c then rest else gate_check c ∷ rest

unfoldable pub with_capital : ℤ → ℕ → List GateCheck → List Reason
with_capital available required [] = []
with_capital available required (c ∷ cs) =
    (if is_insufficient c then insufficient_available_capital available required else gate_check c)
    ∷ with_capital available required cs

unfoldable pub approval_reasons : Option Bool → List Reason
approval_reasons none = approval_read_failed ∷ []
approval_reasons (some approved) = if approved then [] else not_approved ∷ []

-- EMPTY_RECORD where the solver has no record
abbrev pub record_of : Text → ReadSolverRecordResult → SolverRecord
record_of solver stats =
    or_else (Dict.get (addr_key solver) stats.records) (to_record empty_record_accumulator)

unfoldable pub cap_reasons : ℕ → ℕ → ℕ → List Reason
cap_reasons tier cap amount = if ltb cap amount then tier_cap_exceeded tier cap amount ∷ [] else []
