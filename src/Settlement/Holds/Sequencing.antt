-- ===== src/Settlement/Holds/Sequencing.antt =====
-- The reservation book along runArbitrumSettlementSequence.
use ma_at.Prelude.{ℕ, zero, suc, Bool, Text, key_of}
use ma_at.IntentStatus.{OnChainIntent}
use ma_at.ProofOutput.{ProofOutputJson}
use ma_at.Gate.{gate_ok, required_collateral}
use ma_at.ArbitrumLedger.{get_arbitrum_ledger_entry}
use ma_at.Routing.Book.{Book}
use ma_at.Settlement.World.{Outside, TxOutcome, SolanaPayoutResult, World, modify, move}
use ma_at.Settlement.Chain.{
  Config, Deps, OnSigned, read_intent, reread, looks_unposted, read_intent_after_post_collateral,
  run_solana_payout,
}
use ma_at.Settlement.Notes.{mirror_display, mirror_routing, report, refuse_arbitrum_settlement}
use ma_at.Settlement.Sequence.{
  is_under_way, is_ours, payout_over, retry_payout, await_slash, after_payout, pay_and_confirm,
  resume_from_collateral_posted, posting_signed, post_failed, post_landed, after_post,
  failed_checks, gate_and_post, run_arbitrum_settlement_sequence,
}
use ma_at.Settlement.Keeps.{
  keeps-if, keeps-branch, keeps-modify, keeps-pure, keeps-out_of_fuel, keeps-outward,
  keeps-bind-sleep, keeps-bind-observe,
}
use ma_at.Settlement.Sound.Paying.{keeps-bind-compute}
use ma_at.Settlement.Holds.{Held, Leaves, Leaves-Held, mirror_routing-Leaves, holds-bind}
use ma_at.Settlement.Holds.Confirming.{confirm_settlement_with_retry-Held}

module _ {W : Type 0} (out : Outside W) (cfg : Config) (I : Book → Bool → Type 0) where
  reread-Held :
      (n : ℕ) (id : Text) (o : OnChainIntent) (w : World W)
      → Held I w
      → Held I (reread out cfg n id o w).1
  unfolding reread read_intent
  reread-Held zero id o w h = keeps-pure (Held I) o w h
  reread-Held (suc n) id o w h =
      keeps-if (Held I) (looks_unposted out cfg o) _ _ w
        (λ e. keeps-bind-sleep (Held I) out _ _ w λ s.
          keeps-bind-observe (Held I) _ _ _ (move s w) (λ s'. h)
            λ again s'. reread-Held n id again _ h)
        (λ e. keeps-pure (Held I) o w h)

  read_after-Held :
      (id : Text) (w : World W)
      → Held I w
      → Held I (read_intent_after_post_collateral out cfg id w).1
  unfolding read_intent_after_post_collateral read_intent
  read_after-Held id w h =
      keeps-bind-observe (Held I) _ _ _ w (λ s. h) λ o s. reread-Held _ id o _ h

module _ {W : Type 0} (out : Outside W) (cfg : Config) (deps : Deps W)
    (I : Book → Bool → Type 0) where
  pay-Held : (id z : Text) (w : World W) → Held I w → Held I (run_solana_payout out deps id z w).1
  unfolding run_solana_payout
  pay-Held id z w h = h

  retry_payout-Held :
      (fuel : ℕ) (id : Text) (json : ProofOutputJson) (z : Text) (result : SolanaPayoutResult)
      (w : World W)
      → Held I w
      → Held I (retry_payout out cfg deps fuel id json z result w).1
  unfolding retry_payout
  retry_payout-Held zero id json z result w h =
      keeps-branch (Held I) (payout_over out cfg deps json result w) _ _
        (λ e. keeps-pure (Held I) result w h)
        (λ e. keeps-out_of_fuel SolanaPayoutResult (Held I) w h)
  retry_payout-Held (suc fuel) id json z result w h =
      keeps-branch (Held I) (payout_over out cfg deps json result w) _ _
        (λ e. keeps-pure (Held I) result w h)
        (λ e. keeps-bind-sleep (Held I) out _ _ w λ o.
          holds-bind (Held I) _ _ (move o w) (pay-Held id z (move o w) h)
            λ again w1 h1. retry_payout-Held fuel id json z again w1 h1)

  after_payout-Held :
      (fuel : ℕ) (id : Text) (json : ProofOutputJson) (z : Text) (result : SolanaPayoutResult)
      (w : World W)
      → Held I w
      → Held I (after_payout out cfg deps fuel id json z result w).1
  unfolding after_payout await_slash report mirror_display
  after_payout-Held fuel id json z result w h =
      keeps-if (Held I) result.ok _ _ w
        (λ e. confirm_settlement_with_retry-Held out cfg I fuel id json z w h)
        (λ e. keeps-modify (Held I) _ w h)

  pay_and_confirm-Held :
      (fuel : ℕ) (id : Text) (json : ProofOutputJson) (w : World W)
      → Held I w
      → Held I (pay_and_confirm out cfg deps fuel id json w).1
  unfolding pay_and_confirm
  pay_and_confirm-Held fuel id json w h = keeps-bind-compute out (Held I) (key_of id) _ w h λ z.
      holds-bind (Held I) _ _ w (pay-Held id z w h) λ first w1 h1.
        holds-bind (Held I) _ _ w1 (retry_payout-Held fuel id json z first w1 h1)
          λ result w2 h2. after_payout-Held fuel id json z result w2 h2

  resume-Held :
      (fuel : ℕ) (id : Text) (json : ProofOutputJson) (w : World W)
      → Held I w
      → Held I (resume_from_collateral_posted out cfg deps fuel id json w).1
  unfolding resume_from_collateral_posted report
  resume-Held fuel id json w h =
      holds-bind (Held I) _ _ w (read_after-Held out cfg I id w h) λ o w1 h1.
        keeps-if (Held I) (is_ours deps.solver_address o) _ _ w1
          (λ e. pay_and_confirm-Held fuel id json w1 h1) (λ e. keeps-modify (Held I) _ w1 h1)

  posting-Leaves :
      (id : Text) (json : ProofOutputJson) (hash : Text)
      → Leaves (posting_signed out cfg deps id json hash)
  unfolding posting_signed mirror_display
  posting-Leaves id json hash w = mirror_routing-Leaves out id deps.routing _

  after_post-Held :
      (fuel : ℕ) (id : Text) (json : ProofOutputJson) (outcome : TxOutcome) (w : World W)
      → Held I w
      → Held I (after_post out cfg deps fuel id json outcome w).1
  unfolding after_post post_landed post_failed report mirror_display modify
  after_post-Held fuel id json outcome w h =
      keeps-if (Held I) outcome.ok _ _ w
        (λ e. holds-bind (Held I) _ _ w h λ u w1 h1. resume-Held fuel id json w1 h1)
        (λ e.
          Leaves-Held I (mirror_routing out id deps.routing) _
            (mirror_routing-Leaves out id deps.routing) h)

  -- The sequence keeps whatever holds of the book and the flag, if postCollateral keeps it.
  pub sequence-Held :
      (fuel : ℕ) (id : Text) (json : ProofOutputJson) (w : World W)
      → ((value : ℕ) (on_signed : OnSigned W) (w' : World W)
          → ((hash : Text) → Leaves (on_signed hash))
          → Held I w'
          → Held I (deps.post_collateral id value on_signed w').1)
      → Held I w
      → Held I (run_arbitrum_settlement_sequence out cfg deps fuel id json w).1
  unfolding run_arbitrum_settlement_sequence gate_and_post report refuse_arbitrum_settlement
      mirror_display modify
  sequence-Held fuel id json w posts h =
      keeps-branch (Held I) (is_under_way (get_arbitrum_ledger_entry id w.ledger)) _ _ (λ e. h)
        (λ e. holds-bind (Held I) _ _ w (keeps-outward (Held I) _ w λ o. h) λ balance w1 h1.
          keeps-branch (Held I) (gate_ok (failed_checks out cfg deps json balance w1)) _ _
            (λ g.
              holds-bind (Held I) _ _ w1
                (posts (required_collateral json.amount) _ w1 (posting-Leaves id json) h1)
                λ outcome w2 h2. after_post-Held fuel id json outcome w2 h2)
            (λ g.
              Leaves-Held I (mirror_routing out id deps.routing) _
                (mirror_routing-Leaves out id deps.routing) h1))
