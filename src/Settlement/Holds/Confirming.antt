-- ===== src/Settlement/Holds/Confirming.antt =====
-- The reservation book along signAndSend and confirmSettlementWithRetry.
use ma_at.Prelude.{ℕ, zero, suc, ◌+◌, refl, Bool, ◌||◌, ◌==◌, leb, Text}
use ma_at.IntentStatus.{intent_status_settled, intent_status_slashed, intent_status_refunded}
use ma_at.ProofOutput.{ProofOutputJson}
use ma_at.Routing.Book.{Book}
use ma_at.Settlement.World.{Outside, Transaction, World, move, now_sec}
use ma_at.Settlement.Chain.{
  Config, OnSigned, sign_and_send, note_broadcast, read_intent, send_confirm_settlement,
}
use ma_at.Settlement.Notes.{mirror_display, report}
use ma_at.Settlement.Confirm.{
  confirm_deadline, mark_confirmed, mark_confirmed_by, confirming_signed, give_up, after_confirm,
  confirm_round, confirm_loop, confirm_settlement_with_retry,
}
use ma_at.Settlement.Keeps.{
  keeps-if, keeps-branch, keeps-modify, keeps-pure, keeps-catch, keeps-out_of_fuel, keeps-outward,
  keeps-bind-sleep, keeps-bind-modify, keeps-bind-observe,
}
use ma_at.Settlement.Holds.{Held, Leaves, Leaves-Held, holds-bind}

module _ {W : Type 0} (out : Outside W) (I : Book → Bool → Type 0) where
  pub sign_and_send-Held :
      (from : Text) (tx : Transaction) (on_signed : OnSigned W) (w : World W)
      → ((hash : Text) → Leaves (on_signed hash))
      → Held I w
      → Held I (sign_and_send out from tx on_signed w).1
  unfolding sign_and_send note_broadcast
  sign_and_send-Held from tx on_signed w leaves h =
      keeps-catch (Held I) _ _ w
        (holds-bind (Held I) _ _ w (keeps-outward (Held I) _ w λ o. h) λ hash w1 h1.
          keeps-bind-modify (Held I) _ _ w1 (
            keeps-bind-modify (Held I) _ _ (on_signed hash w1) (
              holds-bind (Held I) _ _ _
                (keeps-outward (Held I) _ _ λ o. Leaves-Held I (on_signed hash) w1 (leaves hash) h1)
                λ r w2 h2. keeps-pure (Held I) _ w2 h2)))
        (λ e w' h'. keeps-pure (Held I) _ w' h')

module _ {W : Type 0} (out : Outside W) (cfg : Config) (I : Book → Bool → Type 0) where
  confirm_loop-Held :
      (fuel attempt : ℕ) (id : Text) (json : ProofOutputJson) (z : Text) (w : World W)
      → Held I w
      → Held I (confirm_loop out cfg fuel attempt id json z w).1
  unfolding confirm_loop confirm_round read_intent send_confirm_settlement mark_confirmed report
      mirror_display confirming_signed after_confirm mark_confirmed_by give_up
  confirm_loop-Held zero attempt id json z w h = keeps-out_of_fuel _ (Held I) w h
  confirm_loop-Held (suc fuel) attempt id json z w h =
      keeps-bind-observe (Held I) _ _ _ w (λ o. h)
        λ on_chain o.
          keeps-if (Held I) (on_chain.status == intent_status_settled) _ _ _
            (λ e. keeps-modify (Held I) _ _ h)
            (λ e.
              keeps-if (Held I)
                ((on_chain.status == intent_status_slashed)
                  || (on_chain.status == intent_status_refunded))
                _ _ _ (λ e'. keeps-modify (Held I) _ _ h)
                (λ e'.
                  holds-bind (Held I) _ _ _
                    (sign_and_send-Held out I _ _ _ _ (λ hash v. (refl, refl)) h)
                    λ outcome w1 h1.
                      keeps-branch (Held I) outcome.ok _ _ (λ a. keeps-modify (Held I) _ w1 h1)
                        (λ a.
                          keeps-branch (Held I)
                            (leb (confirm_deadline out cfg json) (now_sec out w1)) _ _
                            (λ b. keeps-modify (Held I) _ w1 h1)
                            (λ b. keeps-bind-sleep (Held I) out _ _ w1 λ o'.
                              confirm_loop-Held fuel (attempt + 1) id json z (move o' w1) h1))))

  pub confirm_settlement_with_retry-Held :
      (fuel : ℕ) (id : Text) (json : ProofOutputJson) (z : Text) (w : World W)
      → Held I w
      → Held I (confirm_settlement_with_retry out cfg fuel id json z w).1
  unfolding confirm_settlement_with_retry
  confirm_settlement_with_retry-Held fuel id json z w h = confirm_loop-Held fuel 1 id json z w h
