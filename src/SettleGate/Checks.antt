-- ===== src/SettleGate/Checks.antt =====
-- What the settle gate lets through.
use ma_at.Prelude.{ℕ, ◌/◌, ◌<◌, ◌≡◌, ◌↔◌, true, false, arith, Text, text_eq_iff, addr_key}
use ma_at.ProofOutput.{ProofOutputJson}
use ma_at.SettledLedger.{SettledLedger, is_already_settled}
use ma_at.SettleGate.{expected_vkey, solana_chain_id, evaluate_settle_gate, settle_gate_ok}

-- The settle gate passes exactly if the contract, the block hash and the key are those expected, the
-- intent is not settled, its destination is Solana, and its expiry is not reached.
pub settle_gate_ok_iff :
    (json : ProofOutputJson) (expected canonical : Text) (ledger : SettledLedger) (now_ms : ℕ)
    → (settle_gate_ok (evaluate_settle_gate json expected canonical ledger now_ms) ≡ true) ↔ (
        (addr_key json.contract ≡ addr_key expected)
        × (addr_key json.block_hash ≡ addr_key canonical)
        × (addr_key json.vkey ≡ addr_key expected_vkey)
        × (is_already_settled json.intent_id ledger ≡ false)
        × (json.destination_chain_id ≡ solana_chain_id)
        × (now_ms / 1000 < json.expiry))
unfolding settle_gate_ok evaluate_settle_gate
settle_gate_ok_iff json expected canonical ledger now_ms = ground (
  arith,
  text_eq_iff (addr_key json.contract) (addr_key expected),
  text_eq_iff (addr_key json.block_hash) (addr_key canonical),
  text_eq_iff (addr_key json.vkey) (addr_key expected_vkey),
)
