-- ===== src/Settlement/Reconcile.antt =====
-- reconcileArbitrumLedger of orchestrator/src/arbitrum_settlement.ts: on boot, each intent that was
-- left mid-sequence is resolved from the chain, and each at collateral_posted is resumed.
use ma_at.Prelude.{
  ℕ, Option, none, some, [], ◌++◌, ◌==◌, if◌then◌else◌, Text, text, with_0x, or_else, or_option,
}
use ma_at.IntentStatus.{
  OnChainIntent, intent_status_settled, intent_status_slashed, intent_status_refunded,
}
use ma_at.ArbitrumLedger.{
  ArbitrumStage, ArbitrumLedgerEntry, Patch, no_patch, given, get_mid_sequence_entries,
  get_collateral_posted_entries,
}
use ma_at.IntentState.{ArbitrumSettlementStage}
use ma_at.IntentState.Setters.{SettlementPatch, stage_patch}
use ma_at.Settlement.World.{
  Receipt, success, reverted, Outside, World, Exec, pure, catch, ◌>>=◌, ◌>>◌, modify, outward,
}
use ma_at.Settlement.Chain.{Config, Deps, read_intent}
use ma_at.Settlement.Notes.{set_stage, mirror_display, report}
use ma_at.Settlement.Resume.{BuildPayout, resume_collateral_posted_intent}
use ma_at.Settlement.Slash.{for_each}

-- The transaction that a mid-sequence entry waits for.
abbrev pub tx_hash_of : ArbitrumLedgerEntry → Option Text
tx_hash_of e = elim e.stage [
  | ArbitrumStage.posting_collateral ↦ e.collateral_tx_hash
  | ArbitrumStage.confirming ↦ e.confirm_tx_hash
  | _ ↦ e.slash_tx_hash
]

-- "success", "reverted", or "pending", which is none.
abbrev pub ReceiptStatus : Type 0
ReceiptStatus = Option Receipt

pub pending_reason : Text → Option Text → Text
pending_reason function hash =
    function
    ++ (text " tx "
        ++ (or_else hash (text "undefined")
            ++ text " still pending after a restart — needs manual review, NOT auto-resubmitting"))

pub reverted_reason : Text → Text → Text
reverted_reason function rest =
    function ++ (text " tx reverted (discovered on boot reconciliation)" ++ rest)

pub refunded_reason : Text
refunded_reason =
    text "intent was Refunded on-chain (claimRefund) while mid-sequence — needs manual review"

module _ {W : Type 0} (out : Outside W) where
  abbrev pub receipt_of : Option Text → Exec W ReceiptStatus
  receipt_of none = pure none
  receipt_of (some hash) =
      catch (outward (out.get_receipt hash) >>= λ r. pure (some r)) (λ error. pure none)

  move_to : Text → ArbitrumStage → Patch → SettlementPatch → World W → World W
  move_to id stage patch shown w = mirror_display out id shown (set_stage out id stage patch w)

  -- The entries at posting_collateral.
  unfoldable pub resolve_posting : Text → Option Text → ReceiptStatus → World W → World W
  unfolding move_to
  resolve_posting id hash (some success) =
      move_to id ArbitrumStage.collateral_posted
        (record no_patch { collateral_tx_hash = given hash })
        (record (stage_patch ArbitrumSettlementStage.collateral_posted) {
          collateral_tx_hash = given hash;
        })
  resolve_posting id hash (some reverted) =
      move_to id ArbitrumStage.collateral_failed
        (record no_patch { collateral_tx_hash = given hash })
        (record (stage_patch ArbitrumSettlementStage.collateral_failed) {
          collateral_tx_hash = given hash;
          reason = some (reverted_reason (text "postCollateral") []);
        })
  resolve_posting id hash none = report out id (pending_reason (text "postCollateral") hash)

  -- The entries at confirming and slashing, which only the intent's own status moves.
  resolve_sent : Text → Text → Text → Option Text → ReceiptStatus → World W → World W
  resolve_sent function rest id hash (some success) w = w
  resolve_sent function rest id hash (some reverted) w =
      report out id (reverted_reason function rest) w
  resolve_sent function rest id hash none w = report out id (pending_reason function hash) w

  unfoldable pub resolve_stage :
      ArbitrumStage → Text → Option Text → ReceiptStatus → World W → World W
  unfolding resolve_posting resolve_sent
  resolve_stage ArbitrumStage.posting_collateral = resolve_posting
  resolve_stage ArbitrumStage.confirming =
      resolve_sent (text "confirmSettlement")
        (text " — escrow + collateral status unclear, needs manual review")
  resolve_stage ArbitrumStage.slashing =
      resolve_sent (text "slashSolver") (text " — needs manual review")
  resolve_stage _ = λ id hash receipt w. w

  -- What the chain says of the intent comes before what the receipt says.
  unfoldable pub resolve :
      Text → ArbitrumLedgerEntry → ReceiptStatus → OnChainIntent → World W → World W
  unfolding move_to
  resolve id e receipt on_chain =
      let hash = tx_hash_of e in
      let confirm = given (or_option e.confirm_tx_hash hash) in
      let slash = given (or_option e.slash_tx_hash hash) in
      if on_chain.status == intent_status_settled
      then move_to id ArbitrumStage.confirmed (record no_patch { confirm_tx_hash = confirm })
          (record (stage_patch ArbitrumSettlementStage.confirmed) { confirm_tx_hash = confirm })
      else if on_chain.status == intent_status_slashed
      then move_to id ArbitrumStage.slashed (record no_patch { slash_tx_hash = slash })
          (record (stage_patch ArbitrumSettlementStage.slashed) { slash_tx_hash = slash })
      else if on_chain.status == intent_status_refunded
      then report out id refunded_reason
      else resolve_stage e.stage id hash receipt

  unfoldable pub reconcile_entry : Text × ArbitrumLedgerEntry → Exec W Unit
  reconcile_entry (key, e) = do
    receipt ← receipt_of (tx_hash_of e)
    on_chain ← read_intent out (with_0x key)
    modify (resolve (with_0x key) e receipt on_chain)

module _ {W : Type 0} (out : Outside W) (cfg : Config) (deps : Deps W) (build : BuildPayout W) where
  unfoldable pub resume_entry : ℕ → Text × ArbitrumLedgerEntry → Exec W Unit
  resume_entry fuel (key, e) = resume_collateral_posted_intent out cfg deps build fuel (with_0x key)

  unfoldable pub resume_all : ℕ → Exec W Unit
  resume_all fuel w = for_each (resume_entry fuel) (get_collateral_posted_entries w.ledger) w

  unfoldable pub reconcile_arbitrum_ledger : ℕ → Exec W Unit
  reconcile_arbitrum_ledger fuel w =
      (for_each (reconcile_entry out) (get_mid_sequence_entries w.ledger) >> resume_all fuel) w
