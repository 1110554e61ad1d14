-- ===== src/Gate/Checks.antt =====
-- What the gate lets through.
use ma_at.Prelude.{◌+◌, ◌*◌, ◌/◌, ◌≤◌, ◌<◌, ◌≡◌, ◌↔◌, true, arith, text_eq_iff, addr_key}
use ma_at.Prelude.Int.{pos, ◌≤ℤ◌}
use ma_at.IntentStatus.{is_zero_address, zero_address}
use ma_at.ProofOutput.{ProofOutputJson}
use ma_at.Gate.{ArbitrumGateParams, evaluate_arbitrum_gate, gate_ok}

-- The gate passes exactly if the token is the native one, the amount is at most the cap, the
-- solver's balance covers 150% of the amount and the gas buffer, and the margin before expiry is
-- not yet reached.
pub gate_ok_iff :
    (json : ProofOutputJson) (params : ArbitrumGateParams)
    → (gate_ok (evaluate_arbitrum_gate json params) ≡ true) ↔ (
        (addr_key json.token_address ≡ zero_address)
        × (json.amount ≤ params.max_transfer_wei)
        × (pos (json.amount * 150 / 100 + params.gas_buffer_wei) ≤ℤ params.solver_balance_wei)
        × (params.now_sec + params.delivery_margin_sec < json.expiry))
unfolding gate_ok evaluate_arbitrum_gate is_zero_address
gate_ok_iff json params = ground (arith, text_eq_iff (addr_key json.token_address) zero_address)
