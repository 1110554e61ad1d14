-- ===== src/SettleGate.antt =====
-- evaluateSettleGate of orchestrator/src/prover_pipeline.ts: the six checks between a proof and its
-- settlement. The ledger and the clock are arguments.
pub mod Checks
use ma_at.Prelude.{
  ℕ, ◌/◌, Bool, not, List, [], ◌∷◌, ◌==◌, if◌then◌else◌, leb, is_empty, Text, text, text_eq,
  addr_key,
}
use ma_at.Gate.{push_if}
use ma_at.ProofOutput.{ProofOutputJson}
use ma_at.SettledLedger.{SettledLedger, is_already_settled}

pub data SettleCheck : Type 0 where
  contract block_hash vkey already_settled destination_chain_id expiry : SettleCheck

unfoldable pub expected_vkey : Text
unfolding text
expected_vkey = text "0x000c653a242999b53decd2c3d31fc211e432b38eb4ead432b789607eb8621937"

unfoldable pub solana_chain_id : ℕ
solana_chain_id = 1399811149

-- `a.toLowerCase() !== b.toLowerCase()`
abbrev pub differs : Text → Text → Bool
differs a b = not (text_eq (addr_key a) (addr_key b))

-- The list of failed checks; the gate is ok if it is empty.
unfoldable pub evaluate_settle_gate :
    ProofOutputJson → Text → Text → SettledLedger → ℕ → List SettleCheck
evaluate_settle_gate json expected_contract canonical_block_hash ledger now_ms =
    push_if (differs json.contract expected_contract) contract (
      push_if (differs json.block_hash canonical_block_hash) block_hash (
        push_if (differs json.vkey expected_vkey) vkey (
          push_if (is_already_settled json.intent_id ledger) already_settled (
            push_if (not (json.destination_chain_id == solana_chain_id)) destination_chain_id
              (push_if (leb json.expiry (now_ms / 1000)) expiry [])))))

unfoldable pub settle_gate_ok : List SettleCheck → Bool
settle_gate_ok failed = is_empty failed
