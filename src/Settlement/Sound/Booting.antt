-- ===== src/Settlement/Sound/Booting.antt =====
-- resumeCollateralPostedIntent and reconcileArbitrumLedger against the specification of Trace.
use ma_at.Prelude.{ℕ, ◌≡◌, Bool, true, false, Option, none, some, arith, Text, with_0x, key_of}
use ma_at.IntentStatus.{OnChainIntent}
use ma_at.ProofOutput.{ProofOutputJson}
use ma_at.ArbitrumLedger.{ArbitrumLedgerEntry, is_collateral_posted}
use ma_at.SettledLedger.{is_already_settled}
use ma_at.Settlement.World.{Outside, World}
use ma_at.Settlement.Keeps.{
  keeps-if, keeps-bind, keeps-modify, keeps-pure, keeps-catch, keeps-bind-outward, keeps-for_each,
}
use ma_at.Settlement.Chain.{Config, Deps}
use ma_at.Settlement.Notes.{report, mirror_display}
use ma_at.Settlement.Resume.{
  BuildPayout, resume_unpaid, resume_with, resume_posted, resume_found,
  resume_collateral_posted_intent,
}
use ma_at.Settlement.Reconcile.{
  ReceiptStatus, tx_hash_of, receipt_of, resolve_stage, resolve, reconcile_entry, resume_entry,
  resume_all, reconcile_arbitrum_ledger,
}
use ma_at.Settlement.Trace.{Sound, IsSound, modify-IsSound}
use ma_at.Settlement.Sound.Sending.{read_intent-Sound}
use ma_at.Settlement.Sound.Confirming.{confirm_settlement_with_retry-Sound}
use ma_at.Settlement.Sound.Paying.{keeps-bind-compute, resume-Sound}

module _ {W : Type 0} (out : Outside W) (cfg : Config) (deps : Deps W) (build : BuildPayout W) where
  resume_unpaid-Sound :
      (fuel : ℕ) (id : Text) (e : ArbitrumLedgerEntry) (json : ProofOutputJson) (b : BuildPayout W)
      (w : World W)
      → Sound w.trace
      → Sound (resume_unpaid out cfg deps build fuel id e json b w).1.trace
  unfolding report
  resume_unpaid-Sound fuel id e json none w s = keeps-modify IsSound _ w s
  resume_unpaid-Sound fuel id e json (some payout_of) w s = resume-Sound out cfg _ fuel id json w s

  resume_with-Sound :
      (fuel : ℕ) (settled : Bool) (id : Text) (e : ArbitrumLedgerEntry)
      (json : Option ProofOutputJson) (w : World W)
      → Sound w.trace
      → Sound (resume_with out cfg deps build fuel settled id e json w).1.trace
  unfolding report
  resume_with-Sound fuel settled id e none w s = keeps-modify IsSound _ w s
  resume_with-Sound fuel true id e (some json) w s =
      keeps-bind-compute out IsSound (key_of id) _ w s
        λ z. confirm_settlement_with_retry-Sound out cfg fuel id json z w s
  resume_with-Sound fuel false id e (some json) w s = resume_unpaid-Sound fuel id e json build w s

  resume_found-Sound :
      (fuel : ℕ) (id : Text) (found : Option ArbitrumLedgerEntry) (w : World W)
      → Sound w.trace
      → Sound (resume_found out cfg deps build fuel id found w).1.trace
  unfolding resume_posted report
  resume_found-Sound fuel id none w s = keeps-pure IsSound tt w s
  resume_found-Sound fuel id (some e) w s =
      keeps-if IsSound (is_collateral_posted e.stage) _ _ w
        (λ p.
          keeps-catch IsSound _ _ w
            (resume_with-Sound fuel (is_already_settled id w.settled) id e _ w s)
            (λ error w' s'. keeps-modify IsSound _ w' s'))
        (λ p. keeps-pure IsSound tt w s)

  -- The resumption of an intent whose collateral is posted does nothing unjustified: from a sound
  -- trace it leads to a sound trace, whichever solver the ledger names.
  pub resume_collateral_posted-Sound :
      (fuel : ℕ) (id : Text) (w : World W)
      → Sound w.trace
      → Sound (resume_collateral_posted_intent out cfg deps build fuel id w).1.trace
  unfolding resume_collateral_posted_intent
  resume_collateral_posted-Sound fuel id w s = resume_found-Sound fuel _ _ w s

module _ {W : Type 0} (out : Outside W) where
  resolve-quiet :
      (id : Text) (e : ArbitrumLedgerEntry) (receipt : ReceiptStatus) (o : OnChainIntent)
      (w : World W)
      → (resolve out id e receipt o w).trace ≡ w.trace
  unfolding resolve resolve_stage report mirror_display
  resolve-quiet id e receipt o w = ground arith

  receipt_of-Sound :
      (hash : Option Text) (w : World W) → Sound w.trace → Sound (receipt_of out hash w).1.trace
  receipt_of-Sound none w s = keeps-pure IsSound none w s
  receipt_of-Sound (some hash) w s =
      keeps-catch IsSound _ _ w
        (keeps-bind-outward IsSound _ _ w (λ o. s) (λ r o e. keeps-pure IsSound _ _ s))
        (λ error w' s'. keeps-pure IsSound none w' s')

  reconcile_entry-Sound :
      (x : Text × ArbitrumLedgerEntry) (w : World W)
      → Sound w.trace
      → Sound (reconcile_entry out x w).1.trace
  unfolding reconcile_entry
  reconcile_entry-Sound (key, e) w s =
      let looked = receipt_of-Sound (tx_hash_of e) w s in
      keeps-bind IsSound _ _ w looked λ receipt eq.
        read_intent-Sound out (with_0x key) _ _ looked
          λ o w' l s'. modify-IsSound _ w' (resolve-quiet (with_0x key) e receipt o w') s'

-- The reconciliation on boot does nothing unjustified: from a sound trace it leads to a sound
-- trace.
pub reconcile-Sound :
    {W : Type 0} (out : Outside W) (cfg : Config) (deps : Deps W) (build : BuildPayout W) (fuel : ℕ)
    (w : World W)
    → Sound w.trace
    → Sound (reconcile_arbitrum_ledger out cfg deps build fuel w).1.trace
unfolding reconcile_arbitrum_ledger resume_all resume_entry
reconcile-Sound out cfg deps build fuel w s =
    let first = keeps-for_each IsSound _ _ w (reconcile_entry-Sound out) s in
    keeps-bind IsSound _ _ w first λ a e.
      keeps-for_each IsSound _ _ _
        (λ x w' s'. resume_collateral_posted-Sound out cfg deps build fuel (with_0x x.0) w' s')
        first
