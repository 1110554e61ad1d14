-- ===== src/Settlement/Ends/Sequencing.antt =====
-- Termination of runArbitrumSettlementSequence, from its guard to its last step.
use ma_at.Prelude.{ℕ, suc, ◌+◌, ◌*◌, ◌≤◌, refl, Option, arith, Text}
use ma_at.ProofOutput.{ProofOutputJson}
use ma_at.Gate.{gate_ok, required_collateral}
use ma_at.ArbitrumLedger.{RoutingDecision, get_arbitrum_ledger_entry}
use ma_at.Settlement.World.{Reply, Outside, Side, TxOutcome, SolanaPayoutResult, World, now_ms}
use ma_at.Settlement.Chain.{Config, Deps, build_real_deps, send_post_collateral}
use ma_at.Settlement.Notes.{mirror_display, report, refuse_arbitrum_settlement}
use ma_at.Settlement.Confirm.{confirm_deadline}
use ma_at.Settlement.Sequence.{
  is_under_way, posting_signed, post_failed, post_landed, after_post, failed_checks, gate_and_post,
  run_arbitrum_settlement_sequence,
}
use ma_at.Settlement.Ends.{
  Answered, Ticks, Ends, Still, Ends-outward, Ends-modify, Ends-bind, Ends-if, Ends-choice,
}
use ma_at.Settlement.Ends.Confirming.{sign_and_send-Ends}
use ma_at.Settlement.Ends.Paying.{mirror_routing-Still}
use ma_at.Settlement.Ends.Payouts.{Timely, Waits, resume-Ends}

module _ {W : Type 0} (out : Outside W) (cfg : Config) (deps : Deps W) where
  posting-Still :
      (id : Text) (json : ProofOutputJson) (hash : Text)
      → Still out (posting_signed out cfg deps id json hash)
  unfolding posting_signed mirror_display
  posting-Still id json hash w = mirror_routing-Still out cfg 0 id deps.routing _

  failed-Still :
      (id : Text) (json : ProofOutputJson) (outcome : TxOutcome)
      → Still out (post_failed out cfg deps id json outcome)
  unfolding post_failed mirror_display report
  failed-Still id json outcome w = mirror_routing-Still out cfg 0 id deps.routing _

  refused-Still :
      (id : Text) (json : ProofOutputJson) (reason : Text) (r : Option RoutingDecision)
      → Still out (refuse_arbitrum_settlement out id json reason r)
  unfolding refuse_arbitrum_settlement
  refused-Still id json reason r w = mirror_routing-Still out cfg 0 id r _

  after_post-Ends :
      (fuel : ℕ) (id : Text) (json : ProofOutputJson) (outcome : TxOutcome) (t : ℕ) (w : World W)
      → Ticks out
      → Timely out cfg deps
      → Waits out cfg deps
      → t ≤ now_ms out w
      → confirm_deadline out cfg json * 1000 ≤ fuel + t
      → Ends out t (after_post out cfg deps (suc fuel) id json outcome w)
  unfolding after_post post_landed mirror_display
  after_post-Ends fuel id json outcome t w ticks timely waits h enough =
      Ends-choice out t outcome.ok _ _ w
        (λ e.
          Ends-bind out t _ _ w (Ends-modify out t _ w (λ v. refl) h)
            λ u w1 h1. resume-Ends out cfg deps fuel id json t w1 ticks timely waits h1 enough)
        (λ e. Ends-modify out t _ w (failed-Still id json outcome) h)

  gate_and_post-Ends :
      (fuel : ℕ) (id : Text) (json : ProofOutputJson) (balance t : ℕ) (w : World W)
      → Ticks out
      → Timely out cfg deps
      → Waits out cfg deps
      → t ≤ now_ms out w
      → confirm_deadline out cfg json * 1000 ≤ fuel + t
      → Ends out t (gate_and_post out cfg deps (suc fuel) id json balance w)
  unfolding gate_and_post
  gate_and_post-Ends fuel id json balance t w ticks timely waits h enough =
      Ends-if out t (gate_ok (failed_checks out cfg deps json balance w)) _ _
        (λ g.
          Ends-bind out t _ _ w
            (timely.posts id (required_collateral json.amount) _ t w (posting-Still id json) h)
            λ outcome w1 h1. after_post-Ends fuel id json outcome t w1 ticks timely waits h1 enough)
        (λ g. Ends-modify out t _ w (refused-Still id json _ deps.routing) h)

  -- With a clock that ticks, payouts and postings that end, delays of a millisecond at least, and fuel
  -- for every millisecond up to the deadline of the confirmation, the sequence ends: it returns or
  -- throws, at the time it started or later.
  pub sequence-Ends :
      (fuel : ℕ) (id : Text) (json : ProofOutputJson) (w : World W)
      → Ticks out
      → Timely out cfg deps
      → Waits out cfg deps
      → confirm_deadline out cfg json * 1000 ≤ fuel + now_ms out w
      → Ends out (now_ms out w) (run_arbitrum_settlement_sequence out cfg deps (suc fuel) id json w)
  unfolding run_arbitrum_settlement_sequence report
  sequence-Ends fuel id json w ticks timely waits enough =
      Ends-if out (now_ms out w) (is_under_way (get_arbitrum_ledger_entry id w.ledger)) _ _
        (λ e. Ends-modify out (now_ms out w) _ w (λ v. refl) (omega arith))
        (λ e.
          Ends-bind out (now_ms out w) _ _ w
            (Ends-outward out (now_ms out w) _ w (ticks.balances deps.solver_address w.outside)
              (omega arith))
            λ balance w1 h1.
              gate_and_post-Ends fuel id json balance (now_ms out w) w1 ticks timely waits h1
                enough)

-- The deps of a configured solver are timely, if their payout is.
pub build_real_deps-Timely :
    {W : Type 0} (out : Outside W) (cfg : Config) (solver : Text)
    (pay : Text → Side W → Reply SolanaPayoutResult × Side W)
    → Ticks out
    → ((z : Text) (s : Side W)
        → Answered (pay z s).0 × (out.now_ms s.outside ≤ out.now_ms (pay z s).1.outside))
    → Timely out cfg (build_real_deps out cfg solver pay)
unfolding build_real_deps send_post_collateral
build_real_deps-Timely out cfg solver pay ticks pays = record {
  pays = pays;
  posts =
      λ id value on_signed t w still h. sign_and_send-Ends out t solver _ on_signed w ticks still h;
}
