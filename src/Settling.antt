-- ===== src/Settling.antt =====
-- reconcileSettlingLedger of orchestrator/src/prover_pipeline.ts: each signed payout whose fate is not
-- known is looked up on Solana. The set of signatures that were alerted before comes in and goes out.
pub mod Landed
use ma_at.Prelude.{
  ℕ, Bool, true, false, Option, none, some, List, [], ◌∷◌, ◌++◌, if◌then◌else◌, not, keep_if, Text,
  text, text_eq,
}
use ma_at.SettledLedger.{get_settling_entries, mark_settled}
use ma_at.IntentState.Setters.{set_settled, set_unconfirmed_needs_review, record_alert_reason}
use ma_at.Settlement.World.{
  Outside, World, Exec, Reply, ok, threw, unfinished, pure, ◌>>=◌, continue, out_of_fuel, now_ms,
}
use ma_at.Settlement.Chain.{check_solana_signature_landed}
use ma_at.Settlement.Notes.{alert, write_state}

pub record Pass : Type 0 where
  pub alerted : List Text  -- alreadyAlertedSettlingSigs
  pub newly_settled : List Text

unfoldable pub has_alerted : Text → List Text → Bool
has_alerted sig [] = false
has_alerted sig (s ∷ ss) = let rest = has_alerted sig ss in if text_eq s sig then true else rest

pub waiting_reason : Text → Text
waiting_reason sig =
    text "still \"settling\" (sig "
    ++ (sig
        ++ text
            ") with no confirmed landing on Solana — NOT auto-resettling. Needs manual review; will keep re-checking automatically until it lands or the intent is otherwise resolved.")

pub failed_reason : Text → Text → Text
failed_reason sig error =
    text "failed to check signature "
    ++ (sig
        ++ (text " on Solana during reconciliation: " ++ (error ++ text " — NOT auto-resettling.")))

module _ {W : Type 0} (out : Outside W) where
  unfoldable pub settle_landed : Text → Text → World W → World W
  settle_landed id sig w =
      write_state out (set_settled id sig)
        (record w { side = record w.side { settled = mark_settled id (now_ms out w) w.settled } })

  unfoldable pub warn_waiting : Text → Text → World W → World W
  warn_waiting id sig w = write_state out (record_alert_reason id (waiting_reason sig)) (
      write_state out (set_unconfirmed_needs_review id sig)
        (alert out (text "intent " ++ (id ++ (text ": " ++ waiting_reason sig))) w))

  unfoldable pub warn_failed : Text → Text → Text → World W → World W
  warn_failed id sig error w =
      write_state out (record_alert_reason id (failed_reason sig error))
        (alert out (text "intent " ++ (id ++ (text ": " ++ failed_reason sig error))) w)

  -- What follows a look at one signature, or its failure.
  unfoldable pub after_check : Text → Text → Pass → Reply Bool → Exec W Pass
  after_check id sig p (ok true) w = (
    ok (record {
      alerted = keep_if (λ s. not (text_eq s sig)) p.alerted;
      newly_settled = p.newly_settled ++ (id ∷ []);
    }),
    settle_landed id sig w,
  )
  after_check id sig p (ok false) w =
      if has_alerted sig p.alerted
      then (ok p, w)
      else (ok (record p { alerted = p.alerted ++ (sig ∷ []) }), warn_waiting id sig w)
  after_check id sig p (threw error) w = (ok p, warn_failed id sig error w)
  after_check id sig p unfinished w = (unfinished, w)

  unfoldable pub reconcile_settling : List (Text × Text) → Pass → Exec W Pass
  reconcile_settling [] p w = pure p w
  reconcile_settling ((id, sig) ∷ rest) p w =
      let (reply, w') = check_solana_signature_landed out sig w in
      (after_check id sig p reply >>= reconcile_settling rest) w'

  unfoldable pub reconcile_settling_ledger : List Text → Exec W Pass
  unfolding reconcile_settling
  reconcile_settling_ledger alerted w =
      reconcile_settling (get_settling_entries w.settled)
        (record { alerted = alerted; newly_settled = [] }) w
