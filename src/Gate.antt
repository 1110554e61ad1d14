-- ===== src/Gate.antt =====
-- evaluateArbitrumGate of orchestrator/src/arbitrum_settlement.ts: the checks before any collateral
-- is posted.
pub mod Checks
use ma_at.Prelude.{
  ℕ, ◌+◌, ◌*◌, ◌/◌, Bool, List, [], ◌∷◌, ◌++◌, if◌then◌else◌, ltb, leb, not, is_empty, Text, text,
}
use ma_at.Prelude.Int.{ℤ, pos, ltb_ℤ}
use ma_at.IntentStatus.{is_zero_address}
use ma_at.ProofOutput.{ProofOutputJson}

pub data GateCheck : Type 0 where
  token_not_native amount_exceeds_max_transfer : GateCheck
  insufficient_solver_balance too_close_to_expiry : GateCheck

pub check_name : GateCheck → Text
check_name token_not_native = text "token_not_native"
check_name amount_exceeds_max_transfer = text "amount_exceeds_max_transfer"
check_name insufficient_solver_balance = text "insufficient_solver_balance"
check_name too_close_to_expiry = text "too_close_to_expiry"

pub record ArbitrumGateParams : Type 0 where
  pub max_transfer_wei : ℕ
  pub solver_balance_wei : ℤ  -- routing passes a balance less its reservations
  pub gas_buffer_wei : ℕ
  pub now_sec : ℕ
  pub delivery_margin_sec : ℕ

-- (amount * 150n) / 100n
unfoldable pub required_collateral : ℕ → ℕ
required_collateral amount = amount * 150 / 100

-- `if (test) failed.push(check)`
abbrev pub push_if {ℓ} : {A : Type ℓ} → Bool → A → List A → List A
push_if test check later = if test then check ∷ later else later

-- The list of failed checks; the gate is ok if it is empty.
unfoldable pub evaluate_arbitrum_gate : ProofOutputJson → ArbitrumGateParams → List GateCheck
unfolding required_collateral
evaluate_arbitrum_gate json params =
    push_if (not (is_zero_address json.token_address)) token_not_native (
      push_if (ltb params.max_transfer_wei json.amount) amount_exceeds_max_transfer (
        push_if
          (ltb_ℤ params.solver_balance_wei
            (pos (required_collateral json.amount + params.gas_buffer_wei)))
          insufficient_solver_balance
          (push_if (leb json.expiry (params.now_sec + params.delivery_margin_sec))
            too_close_to_expiry [])))

unfoldable pub gate_ok : List GateCheck → Bool
gate_ok failed = is_empty failed
