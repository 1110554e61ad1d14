-- ===== src/Settlement/Sound/Posting.antt =====
-- Step 1 of runArbitrumSettlementSequence, and the sequence as a whole, against the specification of
-- Trace.
use ma_at.Prelude.{ℕ, ◌≡◌, refl, Option, none, some, Text}
use ma_at.ProofOutput.{ProofOutputJson}
use ma_at.Gate.{gate_ok, required_collateral}
use ma_at.ArbitrumLedger.{
  ArbitrumLedgerEntry, RoutingDecision, ArbitrumStage, get_arbitrum_ledger_entry, merge,
}
use ma_at.ArbitrumLedger.Laws.{get_entry-set_stage_self}
use ma_at.Settlement.World.{
  Reply, Outside, post_collateral, TxOutcome, SolanaPayoutResult, World, Side, now_ms, move,
}
use ma_at.Settlement.Keeps.{
  keeps-if, keeps-branch, keeps-bind, keeps-modify, keeps-bind-outward, keeps-bind-modify,
}
use ma_at.Settlement.Chain.{Config, Deps, OnSigned, build_real_deps, send_post_collateral}
use ma_at.Settlement.Notes.{
  report, mirror_display, mirror_reason, mirror_routing, refuse_arbitrum_settlement,
}
use ma_at.Settlement.Sequence.{
  is_under_way, posting_patch, posting_signed, post_failed, post_landed, after_post, failed_checks,
  gate_and_post, run_arbitrum_settlement_sequence,
}
use ma_at.Settlement.Trace.{Sound, IsSound, modify-IsSound}
use ma_at.Settlement.Sound.Sending.{Announces, sign_and_send-Sound}
use ma_at.Settlement.Sound.Paying.{resume-Sound}

module _ {W : Type 0} (out : Outside W) where
  mirror_reason-quiet :
      (id : Text) (r : RoutingDecision) (reason : Option Text) (w : World W)
      → ((mirror_reason out id r reason w).trace ≡ w.trace)
        × ((mirror_reason out id r reason w).ledger ≡ w.ledger)
  mirror_reason-quiet id r none w = (refl, refl)
  mirror_reason-quiet id r (some reason) w = (refl, refl)

  mirror_routing-quiet :
      (id : Text) (r : Option RoutingDecision) (w : World W)
      → ((mirror_routing out id r w).trace ≡ w.trace)
        × ((mirror_routing out id r w).ledger ≡ w.ledger)
  unfolding mirror_routing
  mirror_routing-quiet id none w = (refl, refl)
  mirror_routing-quiet id (some r) w = mirror_reason-quiet id r r.routing_reason w

  pub refuse-quiet :
      (id : Text) (json : ProofOutputJson) (reason : Text) (r : Option RoutingDecision)
      (w : World W)
      → (refuse_arbitrum_settlement out id json reason r w).trace ≡ w.trace
  unfolding refuse_arbitrum_settlement
  refuse-quiet id json reason r w = (mirror_routing-quiet id r _).0

module _ {W : Type 0} (out : Outside W) (cfg : Config) (deps : Deps W) where
  -- What the sequence asks of a postCollateral: it sends what `onSigned` announces, or nothing.
  pub record PostsSoundly : Type 0 where
    pub at :
        (id : Text) (value : ℕ) (on_signed : OnSigned W) (w : World W)
        → Announces out (post_collateral id value) on_signed w
        → Sound w.trace
        → Sound (deps.post_collateral id value on_signed w).1.trace

  posting-entry :
      (id : Text) (json : ProofOutputJson) (hash : Text) (w : World W)
      → (e : ArbitrumLedgerEntry) × (get_arbitrum_ledger_entry id
            (posting_signed out cfg deps id json hash w).ledger
          ≡ some e)
        × (e.stage ≡ ArbitrumStage.posting_collateral)
        × (e.collateral_tx_hash ≡ some hash)
  unfolding posting_signed mirror_display merge
  posting-entry id json hash w = (
    merge (get_arbitrum_ledger_entry id w.ledger) ArbitrumStage.posting_collateral
        (posting_patch out cfg deps json hash) (now_ms out w),
    rw (mirror_routing-quiet out id deps.routing _).1 (get_entry-set_stage_self id _ _ _ w.ledger),
    refl,
    refl,
  )

  posting-Announces :
      (id : Text) (json : ProofOutputJson) (value : ℕ) (w : World W)
      → Announces out (post_collateral id value) (posting_signed out cfg deps id json) w
  unfolding posting_signed mirror_display
  posting-Announces id json value w = record {
    quiet = λ hash o. (mirror_routing-quiet out id deps.routing _).0;
    justified = λ hash o.
        let (e, found, stage, tx) = posting-entry id json hash (move o w) in
        rw found ((stage, tx), tt);
  }

  after_post-Sound :
      (fuel : ℕ) (id : Text) (json : ProofOutputJson) (outcome : TxOutcome) (w : World W)
      → Sound w.trace
      → Sound (after_post out cfg deps fuel id json outcome w).1.trace
  unfolding after_post post_landed post_failed report mirror_display
  after_post-Sound fuel id json outcome w s =
      keeps-if IsSound outcome.ok _ _ w
        (λ e. keeps-bind-modify IsSound _ _ w (resume-Sound out cfg deps fuel id json _ s))
        (λ e. modify-IsSound _ w (mirror_routing-quiet out id deps.routing _).0 s)

  gate_and_post-Sound :
      (fuel : ℕ) (id : Text) (json : ProofOutputJson) (balance : ℕ) (w : World W)
      → PostsSoundly
      → Sound w.trace
      → Sound (gate_and_post out cfg deps fuel id json balance w).1.trace
  unfolding gate_and_post
  gate_and_post-Sound fuel id json balance w p s =
      let value = required_collateral json.amount in
      let posted = p.at id value _ w (posting-Announces id json value w) s in
      keeps-branch IsSound (gate_ok (failed_checks out cfg deps json balance w)) _ _
        (λ g.
          keeps-bind IsSound _ _ w posted
            λ outcome e. after_post-Sound fuel id json outcome _ posted)
        (λ g. modify-IsSound _ w (refuse-quiet out id json _ deps.routing w) s)

  -- Whatever the outside answers and however a payout ends, the sequence does nothing unjustified,
  -- with any deps that post soundly: from a sound trace it leads to a sound trace.
  pub sequence-Sound :
      (fuel : ℕ) (id : Text) (json : ProofOutputJson) (w : World W)
      → PostsSoundly
      → Sound w.trace
      → Sound (run_arbitrum_settlement_sequence out cfg deps fuel id json w).1.trace
  unfolding run_arbitrum_settlement_sequence report
  sequence-Sound fuel id json w p s =
      keeps-branch IsSound (is_under_way (get_arbitrum_ledger_entry id w.ledger)) _ _
        (λ e. keeps-modify IsSound _ w s)
        (λ e.
          keeps-bind-outward IsSound _ _ w (λ o. s)
            (λ balance o e'. gate_and_post-Sound fuel id json balance (move o w) p s))

-- The deps of a configured solver post soundly, with or without a routing decision.
pub build_real_deps-PostsSoundly :
    {W : Type 0} (out : Outside W) (cfg : Config) (solver : Text)
    (pay : Text → Side W → Reply SolanaPayoutResult × Side W) (routing : Option RoutingDecision)
    → PostsSoundly out cfg (record (build_real_deps out cfg solver pay) { routing = routing })
unfolding build_real_deps send_post_collateral
build_real_deps-PostsSoundly out cfg solver pay routing = record {
  at =
      λ id value on_signed w. sign_and_send-Sound out solver (post_collateral id value) on_signed w;
}
