-- ===== src/IntentStatus.antt =====
-- orchestrator/src/intent_status.ts: the values of IntentManager's IntentStatus, as the contract
-- encodes them, and what arbitrum_settlement.ts and solver_stats.ts test a status by.
use ma_at.Prelude.{ℕ, Bool, Text, text, text_eq, addr_key}

abbrev pub intent_status_pending : ℕ
intent_status_pending = 0

abbrev pub intent_status_settled : ℕ
intent_status_settled = 1

abbrev pub intent_status_expired : ℕ
intent_status_expired = 2

abbrev pub intent_status_slashed : ℕ
intent_status_slashed = 3

abbrev pub intent_status_refunded : ℕ
intent_status_refunded = 4

-- OnChainIntent: what `intents(id)` returns.
pub record OnChainIntent : Type 0 where
  pub owner : Text
  pub amount : ℕ
  pub token_address : Text
  pub status : ℕ
  pub solver : Text
  pub collateral_posted : ℕ

unfoldable pub zero_address : Text
unfolding text
zero_address = text "0x0000000000000000000000000000000000000000"

-- `a.toLowerCase() === ZERO_ADDRESS`
unfoldable pub is_zero_address : Text → Bool
is_zero_address a = text_eq (addr_key a) zero_address
