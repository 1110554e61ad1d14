-- ===== src/Settlement/Ends/Payouts.antt =====
-- Termination of the payout loop and of what resumes from posted collateral.
use ma_at.Prelude.{
  ℕ, zero, suc, ◌+◌, ◌*◌, ◌/◌, ◌≤◌, ◌<◌, ◌≡◌, refl, Bool, false, ◌||◌, leb, All, arith, Text,
  key_of,
}
use ma_at.ProofOutput.{ProofOutputJson}
use ma_at.Settlement.World.{Outside, Side, SolanaPayoutResult, World, now_ms}
use ma_at.Settlement.Chain.{Config, Deps, OnSigned, run_solana_payout}
use ma_at.Settlement.Notes.{mirror_display, report}
use ma_at.Settlement.Confirm.{confirm_deadline}
use ma_at.Settlement.Sequence.{
  is_ours, payout_over, retry_payout, await_slash, after_payout, pay_and_confirm,
  resume_from_collateral_posted,
}
use ma_at.Settlement.Ends.{
  Answered, Ticks, Ends, Still, Ends-pure, Ends-modify, Ends-bind, Ends-if, Ends-choice,
}
use ma_at.Settlement.Ends.Confirming.{sleep_then-Ends, confirm_settlement_with_retry-Ends}
use ma_at.Settlement.Ends.Paying.{read_after-Ends, compute-Ends}

module _ {W : Type 0} (out : Outside W) (cfg : Config) (deps : Deps W) where
  -- What the sequence asks of its deps: a payout is run by another process and comes to an end, and
  -- postCollateral ends if what it announces only changes the process's state.
  pub record Timely : Type 0 where
    pub pays :
        (z : Text) (s : Side W)
        → Answered (deps.run_solana_payout z s).0
          × (out.now_ms s.outside ≤ out.now_ms (deps.run_solana_payout z s).1.outside)
    pub posts :
        (id : Text) (value : ℕ) (on_signed : OnSigned W) (t : ℕ) (w : World W)
        → ((hash : Text) → Still out (on_signed hash))
        → t ≤ now_ms out w
        → Ends out t (deps.post_collateral id value on_signed w)

  pay-Ends :
      (id z : Text) (t : ℕ) (w : World W)
      → Timely
      → t ≤ now_ms out w
      → Ends out t (run_solana_payout out deps id z w)
  unfolding run_solana_payout
  pay-Ends id z t w timely h =
      let (answered, later) = timely.pays z w.side in (answered, omega (arith, later, h))

  before_margin :
      (expiry now margin t : ℕ)
      → leb expiry (now / 1000 + margin) ≡ false
      → t ≤ now
      → t < expiry * 1000
  before_margin expiry now margin t h le = ground arith

  not_over :
      (json : ProofOutputJson) (result : SolanaPayoutResult) (t : ℕ) (w : World W)
      → payout_over out cfg deps json result w ≡ false
      → t ≤ now_ms out w
      → t < json.expiry * 1000
  unfolding payout_over
  not_over json result t w o h =
      before_margin json.expiry (now_ms out w) cfg.delivery_margin_sec t (second result.ok _ o) h
    where
      second : (a b : Bool) → (a || b) ≡ false → b ≡ false
      second a b e = ground arith

  retry_payout-Ends :
      (fuel : ℕ) (id : Text) (json : ProofOutputJson) (z : Text) (result : SolanaPayoutResult)
      (t : ℕ) (w : World W)
      → Ticks out
      → Timely
      → 1 ≤ cfg.solana_payout_retry_interval_ms
      → t ≤ now_ms out w
      → json.expiry * 1000 ≤ fuel + t
      → Ends out t (retry_payout out cfg deps fuel id json z result w)
  unfolding retry_payout
  retry_payout-Ends zero id json z result t w ticks timely positive h enough =
      Ends-if out t (payout_over out cfg deps json result w) _ _ (λ e. Ends-pure out t result w h)
        (λ e. elim (late (not_over json result t w e h)) [ ])
    where
      late : t < json.expiry * 1000 → ⊥
      late early = omega (arith, early, enough)
  retry_payout-Ends (suc fuel) id json z result t w ticks timely positive h enough =
      Ends-if out t (payout_over out cfg deps json result w) _ _ (λ e. Ends-pure out t result w h)
        (λ e.
          sleep_then-Ends out cfg cfg.solana_payout_retry_interval_ms t _ w ticks positive h
            λ w1 h1.
              Ends-bind out (suc t) _ _ w1 (pay-Ends id z (suc t) w1 timely h1) λ again w2 h2.
                retry_payout-Ends fuel id json z again (suc t) w2 ticks timely positive h2
                  (omega (arith, enough)))

  -- Delays of a millisecond at least.
  pub record Waits : Type 0 where
    pub confirms : All (λ b. 1 ≤ b) cfg.confirm_retry_backoff_ms
    pub payouts : 1 ≤ cfg.solana_payout_retry_interval_ms

  after_payout-Ends :
      (fuel : ℕ) (id : Text) (json : ProofOutputJson) (z : Text) (result : SolanaPayoutResult)
      (t : ℕ) (w : World W)
      → Ticks out
      → Waits
      → t ≤ now_ms out w
      → confirm_deadline out cfg json * 1000 ≤ fuel + t
      → Ends out t (after_payout out cfg deps (suc fuel) id json z result w)
  unfolding after_payout await_slash report mirror_display
  after_payout-Ends fuel id json z result t w ticks waits h enough =
      Ends-choice out t result.ok _ _ w
        (λ e.
          let (answered, later) =
            confirm_settlement_with_retry-Ends out cfg fuel id json z w ticks waits.confirms
              (omega (arith, enough, h)) in
          (answered, omega (arith, later, h)))
        (λ e. Ends-modify out t _ w (λ v. refl) h)

  expiry-le :
      (fuel : ℕ) (json : ProofOutputJson) (t : ℕ)
      → confirm_deadline out cfg json * 1000 ≤ fuel + t
      → json.expiry * 1000 ≤ suc fuel + t
  unfolding confirm_deadline
  expiry-le fuel json t h = omega (arith, h)

  pay_and_confirm-Ends :
      (fuel : ℕ) (id : Text) (json : ProofOutputJson) (t : ℕ) (w : World W)
      → Ticks out
      → Timely
      → Waits
      → t ≤ now_ms out w
      → confirm_deadline out cfg json * 1000 ≤ fuel + t
      → Ends out t (pay_and_confirm out cfg deps (suc fuel) id json w)
  unfolding pay_and_confirm
  pay_and_confirm-Ends fuel id json t w ticks timely waits h enough =
      Ends-bind out t _ _ w (compute-Ends out cfg t (key_of id) w h) λ z w1 h1.
        Ends-bind out t _ _ w1 (pay-Ends id z t w1 timely h1) λ first w2 h2.
          Ends-bind out t _ _ w2
            (retry_payout-Ends (suc fuel) id json z first t w2 ticks timely waits.payouts h2
              (expiry-le fuel json t enough))
            λ result w3 h3. after_payout-Ends fuel id json z result t w3 ticks waits h3 enough

  pub resume-Ends :
      (fuel : ℕ) (id : Text) (json : ProofOutputJson) (t : ℕ) (w : World W)
      → Ticks out
      → Timely
      → Waits
      → t ≤ now_ms out w
      → confirm_deadline out cfg json * 1000 ≤ fuel + t
      → Ends out t (resume_from_collateral_posted out cfg deps (suc fuel) id json w)
  unfolding resume_from_collateral_posted report
  resume-Ends fuel id json t w ticks timely waits h enough =
      Ends-bind out t _ _ w (read_after-Ends out cfg t id w ticks h) λ o w1 h1.
        Ends-choice out t (is_ours deps.solver_address o) _ _ w1
          (λ e. pay_and_confirm-Ends fuel id json t w1 ticks timely waits h1 enough)
          (λ e. Ends-modify out t _ w1 (λ v. refl) h1)
