-- ===== src/ProofOutput.antt =====
-- ProofOutputJson of orchestrator/src/prover_pipeline.ts: the proof's own account of an intent. The
-- decimal amount is kept as its number.
use ma_at.Prelude.{ℕ, Text}

pub record ProofOutputJson : Type 0 where
  pub tx_hash : Text
  pub mode : Text
  pub vkey : Text
  pub block_hash : Text
  pub block_number : ℕ
  pub block_timestamp : ℕ
  pub contract : Text
  pub intent_id : Text
  pub sender : Text
  pub amount : ℕ
  pub token_address : Text
  pub destination_wallet : Text
  pub destination_chain_id : ℕ
  pub expiry : ℕ
  pub slippage_bps : ℕ
