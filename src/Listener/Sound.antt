-- ===== src/Listener/Sound.antt =====
-- The handlers of orchestrator/src/listener.ts keep the trace sound.
use ma_at.Prelude.{
  ℕ, branch, sym, subst, Bool, true, false, ◌||◌, Option, none, some, List, [], ◌∷◌, Text, text_eq,
}
use ma_at.ProofOutput.{ProofOutputJson}
use ma_at.IntentState.{IntentState, list_pending_finality}
use ma_at.Settlement.World.{Reply, ok, threw, unfinished, Outside, World, pure, ◌>>=◌, modify, move}
use ma_at.Settlement.Chain.{observe, check_solana_signature_landed}
use ma_at.Settlement.Notes.{alert}
use ma_at.Settlement.Trace.{Sound, IsSound}
use ma_at.Settlement.Keeps.{keeps-bind, keeps-bind-outward, keeps-pure, keeps-branch}
use ma_at.Settling.{
  Pass, has_alerted, settle_landed, warn_failed, warn_waiting, after_check, reconcile_settling,
}
use ma_at.SettleGate.{settle_gate_ok}
use ma_at.SettledLedger.{is_already_settled, get_ledger_entry}
use ma_at.Prover.{ProverOutcome, settle_check, prover_rejected, prover_alert, prove_intent}
use ma_at.Prover.Queue.{ProverQueue}
use ma_at.Listener.Payout.{is_settling}
use ma_at.Listener.Verify.{
  Setup, intent_id_hex, failed_checks, refuse, after_block, after_proof, verify_and_settle,
}
use ma_at.Listener.Guarded.{prove_intent-Quiet, settle-Sound}
use ma_at.Listener.Events.{
  IntentCreatedLog, Job, expiry_is_date, log_intent_created, with_hash, is_due, mark_final,
  after_finalized, poll_finality, arbitrum_sepolia,
}

-- The same of a world with a queue.
abbrev HasSound : {W : Type 0} → World W × ProverQueue Job → Type 0
HasSound x = Sound x.0.trace

module _ {W : Type 0} (out : Outside W) where
  after_check-Sound :
      (id sig : Text) (p : Pass) (reply : Reply Bool) (w : World W)
      → Sound w.trace
      → Sound (after_check out id sig p reply w).1.trace
  unfolding after_check settle_landed warn_failed warn_waiting alert
  after_check-Sound id sig p (ok true) w s = s
  after_check-Sound id sig p (ok false) w s =
      keeps-branch IsSound (has_alerted sig p.alerted) _ _ (λ e. s) (λ e. s)
  after_check-Sound id sig p (threw e) w s = s
  after_check-Sound id sig p unfinished w s = s

  check-Sound :
      (sig : Text) (w : World W)
      → Sound w.trace
      → Sound (check_solana_signature_landed out sig w).1.trace
  unfolding check_solana_signature_landed observe modify pure ◌>>=◌
  check-Sound sig w s = keeps-bind-outward IsSound _ _ w (λ o. s) (λ a o e. (tt, s))

  pub reconcile_settling-Sound :
      (xs : List (Text × Text)) (p : Pass) (w : World W)
      → Sound w.trace
      → Sound (reconcile_settling out xs p w).1.trace
  unfolding reconcile_settling
  reconcile_settling-Sound [] p w s = keeps-pure IsSound p w s
  reconcile_settling-Sound ((id, sig) ∷ xs) p w s =
      let look = check_solana_signature_landed out sig w in
      let s' = after_check-Sound id sig p look.0 look.1 (check-Sound sig w s) in
      keeps-bind IsSound (after_check out id sig p look.0) (reconcile_settling out xs) look.1 s'
        λ p' e. reconcile_settling-Sound xs p' _ s'

  mark_final-Sound :
      (n : ℕ) (ss : List IntentState) (w : World W)
      → Sound w.trace
      → Sound (mark_final out n ss w).trace
  unfolding mark_final
  mark_final-Sound n [] w s = s
  mark_final-Sound n (x ∷ ss) w s =
      mark_final-Sound n ss _ (branch IsSound (is_due n x) _ _ (λ e. s) (λ e. s))

  pub poll_finality-Sound :
      (get_finalized : W → Reply (Option ℕ) × W) (w : World W)
      → Sound w.trace
      → Sound (poll_finality out get_finalized w).trace
  unfolding poll_finality
  poll_finality-Sound get_finalized w s = go (get_finalized w.outside).0 (get_finalized w.outside).1
    where
      go : (r : Reply (Option ℕ)) (o : W) → Sound (after_finalized out r (move o w)).trace
      go (ok none) o = s
      go (ok (some n)) o =
          mark_final-Sound n (list_pending_finality arbitrum_sepolia w.states) (move o w) s
      go (threw e) o = s
      go unfinished o = s

module _ {W : Type 0} (out : Outside W) (setup : Setup W) where
  pub log_intent_created-Sound :
      (log : IntentCreatedLog) (chain_label : Text) (w : World W) (q : ProverQueue Job)
      → Sound w.trace
      → Sound (log_intent_created out setup log chain_label (w, q)).0.trace
  unfolding log_intent_created
  log_intent_created-Sound log chain_label w q s =
      branch HasSound (expiry_is_date log.expiry) _ _
        (λ e.
          branch HasSound (text_eq chain_label arbitrum_sepolia) _ _ (λ d. go log.transaction_hash)
            (λ d. s))
        (λ e. s)
    where
      go : (h : Option Text) → HasSound (with_hash out setup log chain_label h (w, q))
      go none = s
      go (some hash) = s

  refuse-Sound :
      (id reason : Text) (w : World W)
      → Sound w.trace
      → Sound (refuse out setup id reason w).1.trace
  unfolding refuse modify alert
  refuse-Sound id reason w s = s

  after_block-Sound :
      (fuel : ℕ) (id : Text) (json : ProofOutputJson) (hash : Reply Text) (w : World W)
      → Sound w.trace
      → Sound (after_block out setup fuel id json hash w).1.trace
  unfolding after_block
  after_block-Sound fuel id json (threw e) w s = refuse-Sound id _ w s
  after_block-Sound fuel id json unfinished w s = s
  after_block-Sound fuel id json (ok hash) w s =
      keeps-branch IsSound (settle_gate_ok (failed_checks out setup json hash w)) _ _
        (λ e.
          keeps-branch IsSound
            (is_already_settled json.intent_id w.settled
              || is_settling setup.child (get_ledger_entry json.intent_id w.settled))
            _ _ (λ d. refuse-Sound id _ w s) (λ d. settle-Sound out setup fuel json w s))
        (λ e. refuse-Sound id _ w s)

  pub verify_and_settle-Sound :
      (fuel : ℕ) (tx_hash id : Text) (w : World W)
      → Sound w.trace
      → Sound (verify_and_settle out setup fuel tx_hash id w).1.trace
  unfolding verify_and_settle after_proof pure
  verify_and_settle-Sound fuel tx_hash id w s = go proved.0
    where
      proved : ProverOutcome × World W
      proved = prove_intent out setup.run_prover tx_hash (intent_id_hex id) w

      s' : Sound proved.1.trace
      s' =
          subst Sound
            (sym (prove_intent-Quiet out setup.run_prover tx_hash (intent_id_hex id) w).trace) s

      go :
          (outcome : ProverOutcome) → Sound (after_proof out setup fuel id outcome proved.1).1.trace
      go prover_rejected = s'
      go prover_alert = s'
      go (settle_check json) =
          after_block-Sound fuel id json (setup.get_block_hash json.block_number proved.1.outside).0
            _ s'
