-- ===== src/Settlement/Confirm.antt =====
-- confirmSettlementWithRetry of orchestrator/src/arbitrum_settlement.ts. The loop takes fuel.
use ma_at.Prelude.{
  ℕ, zero, suc, ◌+◌, ◌-◌, ◌||◌, Option, some, List, [], ◌∷◌, ◌++◌, ◌==◌, leb, if◌then◌else◌, Text,
  text, show_ℕ, or_else, length,
}
use Prim.Native.Nat.{min}
use ma_at.IntentStatus.{
  OnChainIntent, intent_status_settled, intent_status_slashed, intent_status_refunded,
}
use ma_at.ProofOutput.{ProofOutputJson}
use ma_at.ArbitrumLedger.{ArbitrumStage, no_patch, given}
use ma_at.IntentState.{ArbitrumSettlementStage}
use ma_at.IntentState.Setters.{stage_patch}
use ma_at.Settlement.World.{
  Outside, World, TxOutcome, Exec, ◌>>=◌, ◌>>◌, modify, out_of_fuel, now_sec, sleep,
}
use ma_at.Settlement.Chain.{Config, read_intent, send_confirm_settlement}
use ma_at.Settlement.Notes.{set_stage, mirror_display, report}

abbrev pub get_or : List ℕ → ℕ → ℕ → ℕ
get_or [] i d = d
get_or (x ∷ xs) zero d = x
get_or (x ∷ xs) (suc i) d = get_or xs i d

module _ {W : Type 0} (out : Outside W) (cfg : Config) where
  -- An empty schedule gives an undefined delay, which setTimeout takes for one millisecond.
  unfoldable pub confirm_backoff : ℕ → ℕ
  confirm_backoff attempt =
      get_or cfg.confirm_retry_backoff_ms
        (min (attempt - 1) (length cfg.confirm_retry_backoff_ms - 1)) 1

  unfoldable pub confirm_deadline : ProofOutputJson → ℕ
  confirm_deadline json = json.expiry + cfg.confirm_retry_max_sec_after_expiry

  -- The stage is confirmed; the hash is given only where the receipt brought it.
  unfoldable pub mark_confirmed : Text → ProofOutputJson → World W → World W
  mark_confirmed id json w = mirror_display out id (stage_patch ArbitrumSettlementStage.confirmed) (
      set_stage out id ArbitrumStage.confirmed
        (record no_patch { expiry = given (some json.expiry) }) w)

  unfoldable pub mark_confirmed_by : Text → ProofOutputJson → Option Text → World W → World W
  mark_confirmed_by id json hash w =
      mirror_display out id
        (record (stage_patch ArbitrumSettlementStage.confirmed) { confirm_tx_hash = given hash })
        (set_stage out id ArbitrumStage.confirmed
          (record no_patch { confirm_tx_hash = given hash; expiry = given (some json.expiry) }) w)

  unfoldable pub confirming_signed : Text → ProofOutputJson → Text → World W → World W
  confirming_signed id json hash w =
      mirror_display out id
        (record (stage_patch ArbitrumSettlementStage.confirming) {
          confirm_tx_hash = given (some hash);
        })
        (set_stage out id ArbitrumStage.confirming
          (record no_patch {
            confirm_tx_hash = given (some hash);
            expiry = given (some json.expiry);
          })
          w)

  pub resolved_reason : OnChainIntent → Text
  resolved_reason o =
      text "intent was "
      ++ ((if o.status == intent_status_slashed then text "Slashed" else text "Refunded")
          ++ text " on-chain while confirmSettlement was retrying — stopping")

  pub stuck_reason : ℕ → TxOutcome → Text
  stuck_reason attempt outcome =
      text "confirmSettlement failed "
      ++ (show_ℕ attempt
          ++ (text " time(s) (last: "
              ++ (or_else outcome.error (text "unknown")
                  ++ (text ") and the retry deadline (expiry + "
                      ++ (show_ℕ cfg.confirm_retry_max_sec_after_expiry
                          ++ text
                              "s) has passed — escrow + collateral STUCK, needs manual review before the 24h claimRefund window")))))

  unfoldable pub give_up : ℕ → Text → TxOutcome → World W → World W
  give_up attempt id outcome w =
      let reason = stuck_reason attempt outcome in
      mirror_display out id
        (record (stage_patch ArbitrumSettlementStage.confirming) {
          confirm_tx_hash = given outcome.tx_hash;
          reason = some reason;
        })
        (report out id reason w)

  -- What follows one confirmSettlement; `again` is the next round of the loop.
  unfoldable pub after_confirm : ℕ → Text → ProofOutputJson → Exec W Unit → TxOutcome → Exec W Unit
  after_confirm attempt id json again outcome w =
      if outcome.ok
      then modify (mark_confirmed_by id json outcome.tx_hash) w
      else if leb (confirm_deadline json) (now_sec out w)
      then modify (give_up attempt id outcome) w
      else (sleep out (confirm_backoff attempt) >> again) w

  -- One round, from what the chain says of the intent.
  unfoldable pub confirm_round :
      ℕ → Text → ProofOutputJson → Text → Exec W Unit → OnChainIntent → Exec W Unit
  confirm_round attempt id json zk_proof_hash again on_chain =
      if on_chain.status == intent_status_settled
      then modify (mark_confirmed id json)
      else if (on_chain.status == intent_status_slashed)
          || (on_chain.status == intent_status_refunded)
      then modify (report out id (resolved_reason on_chain))
      else send_confirm_settlement out cfg id zk_proof_hash (confirming_signed id json)
        >>= after_confirm attempt id json again

  unfoldable pub confirm_loop : ℕ → ℕ → Text → ProofOutputJson → Text → Exec W Unit
  confirm_loop zero attempt id json zk_proof_hash = out_of_fuel
  confirm_loop (suc fuel) attempt id json zk_proof_hash =
      let again = confirm_loop fuel (attempt + 1) id json zk_proof_hash in
      read_intent out id >>= confirm_round attempt id json zk_proof_hash again

  unfoldable pub confirm_settlement_with_retry : ℕ → Text → ProofOutputJson → Text → Exec W Unit
  unfolding confirm_loop
  confirm_settlement_with_retry fuel = confirm_loop fuel 1
