-- ===== src/Settlement/Sound/Confirming.antt =====
-- confirmSettlementWithRetry: a fresh reading of the intent stands before every broadcast.
use ma_at.Prelude.{ℕ, zero, suc, ◌+◌, ◌≡◌, refl, false, ◌||◌, some, ◌==◌, leb, arith, Text}
use ma_at.IntentStatus.{
  OnChainIntent, intent_status_settled, intent_status_slashed, intent_status_refunded,
}
use ma_at.ProofOutput.{ProofOutputJson}
use ma_at.ArbitrumLedger.{ArbitrumLedgerEntry, ArbitrumStage, get_arbitrum_ledger_entry, merge}
use ma_at.ArbitrumLedger.Laws.{get_entry-set_stage_self}
use ma_at.Settlement.World.{Outside, confirm_settlement, TxOutcome, World, Exec, move, now_sec}
use ma_at.Settlement.Keeps.{
  keeps-if, keeps-branch, keeps-bind, keeps-modify, keeps-sleep, keeps-out_of_fuel,
}
use ma_at.Settlement.Chain.{Config, send_confirm_settlement}
use ma_at.Settlement.Notes.{report, mirror_display}
use ma_at.Settlement.Confirm.{
  confirm_deadline, mark_confirmed, mark_confirmed_by, confirming_signed, give_up, after_confirm,
  confirm_round, confirm_loop, confirm_settlement_with_retry,
}
use ma_at.Settlement.Trace.{latest, Unresolved, Sound, IsSound}
use ma_at.Settlement.Sound.Sending.{Announces, sign_and_send-Sound, read_intent-Sound}

-- The two tests of a round, as what the chain does not say.
unresolved :
    (o : OnChainIntent)
    → (o.status == intent_status_settled) ≡ false
    → ((o.status == intent_status_slashed) || (o.status == intent_status_refunded)) ≡ false
    → Unresolved (some o)
unresolved o e e' = ground arith

module _ {W : Type 0} (out : Outside W) (cfg : Config) where
  confirming-entry :
      (id : Text) (json : ProofOutputJson) (hash : Text) (w : World W)
      → (e : ArbitrumLedgerEntry) × (get_arbitrum_ledger_entry id
            (confirming_signed out cfg id json hash w).ledger
          ≡ some e)
        × (e.stage ≡ ArbitrumStage.confirming)
        × (e.confirm_tx_hash ≡ some hash)
  unfolding confirming_signed mirror_display merge
  confirming-entry id json hash w = (_, get_entry-set_stage_self id _ _ _ w.ledger, refl, refl)

  confirming-Announces :
      (id : Text) (json : ProofOutputJson) (z : Text) (w : World W)
      → Unresolved (latest id w.trace)
      → Announces out (confirm_settlement id z) (confirming_signed out cfg id json) w
  unfolding confirming_signed mirror_display
  confirming-Announces id json z w u = record {
    quiet = λ hash o. refl;
    justified = λ hash o.
        let (e, found, stage, tx) = confirming-entry id json hash (move o w) in
        rw found ((stage, tx), u);
  }

  after_confirm-Sound :
      (attempt : ℕ) (id : Text) (json : ProofOutputJson) (again : Exec W Unit) (outcome : TxOutcome)
      (w : World W)
      → ((w' : World W) → Sound w'.trace → Sound (again w').1.trace)
      → Sound w.trace
      → Sound (after_confirm out cfg attempt id json again outcome w).1.trace
  unfolding after_confirm mark_confirmed_by give_up report mirror_display
  after_confirm-Sound attempt id json again outcome w k s =
      keeps-branch IsSound outcome.ok _ _ (λ e. keeps-modify IsSound _ w s)
        λ e.
          keeps-branch IsSound (leb (confirm_deadline out cfg json) (now_sec out w)) _ _
            (λ e'. keeps-modify IsSound _ w s)
            (λ e'.
              keeps-bind IsSound _ _ w (keeps-sleep IsSound out _ w (λ o. s))
                (λ a e''. k _ (keeps-sleep IsSound out _ w (λ o. s))))

  send_confirm-Sound :
      (id : Text) (json : ProofOutputJson) (z : Text) (w : World W)
      → Unresolved (latest id w.trace)
      → Sound w.trace
      → Sound (send_confirm_settlement out cfg id z (confirming_signed out cfg id json) w).1.trace
  unfolding send_confirm_settlement
  send_confirm-Sound id json z w u s =
      sign_and_send-Sound out cfg.orchestrator_address (confirm_settlement id z) _ w
        (confirming-Announces id json z w u) s

  confirm_round-Sound :
      (attempt : ℕ) (id : Text) (json : ProofOutputJson) (z : Text) (again : Exec W Unit)
      (on_chain : OnChainIntent) (w : World W)
      → ((w' : World W) → Sound w'.trace → Sound (again w').1.trace)
      → latest id w.trace ≡ some on_chain
      → Sound w.trace
      → Sound (confirm_round out cfg attempt id json z again on_chain w).1.trace
  unfolding confirm_round mark_confirmed report mirror_display
  confirm_round-Sound attempt id json z again on_chain w k l s =
      keeps-if IsSound (on_chain.status == intent_status_settled) _ _ w
        (λ e. keeps-modify IsSound _ w s)
        λ e.
          keeps-if IsSound
            ((on_chain.status == intent_status_slashed)
              || (on_chain.status == intent_status_refunded))
            _ _ w (λ e'. keeps-modify IsSound _ w s)
            (λ e'.
              let sent = send_confirm-Sound id json z w (rw l (unresolved on_chain e e')) s in
              keeps-bind IsSound _ _ w sent
                (λ outcome e''. after_confirm-Sound attempt id json again outcome _ k sent))

  confirm_loop-Sound :
      (fuel attempt : ℕ) (id : Text) (json : ProofOutputJson) (z : Text) (w : World W)
      → Sound w.trace
      → Sound (confirm_loop out cfg fuel attempt id json z w).1.trace
  unfolding confirm_loop
  confirm_loop-Sound zero attempt id json z w s = keeps-out_of_fuel Unit IsSound w s
  confirm_loop-Sound (suc fuel) attempt id json z w s =
      read_intent-Sound out id _ w s λ on_chain w' l s'.
        confirm_round-Sound attempt id json z _ on_chain w'
          (confirm_loop-Sound fuel (attempt + 1) id json z) l s'

  pub confirm_settlement_with_retry-Sound :
      (fuel : ℕ) (id : Text) (json : ProofOutputJson) (z : Text) (w : World W)
      → Sound w.trace
      → Sound (confirm_settlement_with_retry out cfg fuel id json z w).1.trace
  unfolding confirm_settlement_with_retry
  confirm_settlement_with_retry-Sound fuel = confirm_loop-Sound fuel 1
