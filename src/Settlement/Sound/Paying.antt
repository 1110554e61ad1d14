-- ===== src/Settlement/Sound/Paying.antt =====
-- Steps 2 to 4 of runArbitrumSettlementSequence against the specification of Trace.
use ma_at.Prelude.{
  ℕ, zero, suc, ◌-◌, ◌≡◌, true, Option, none, some, arith, Text, text_eq_iff, addr_key, key_of,
}
use ma_at.IntentStatus.{OnChainIntent}
use ma_at.ProofOutput.{ProofOutputJson}
use ma_at.Settlement.World.{Outside, SolanaPayoutResult, World, Exec, move, pure, throw, ◌>>=◌}
use ma_at.Settlement.Keeps.{
  keeps-if, keeps-branch, keeps-bind, keeps-modify, keeps-pure, keeps-out_of_fuel, keeps-bind-if,
  keeps-bind-pure, keeps-bind-sleep, bind_assoc,
}
use ma_at.Settlement.Chain.{
  Config, Deps, reread, looks_unposted, read_intent_after_post_collateral, run_solana_payout,
  compute_zk_proof_hash, or_missing,
}
use ma_at.Settlement.Notes.{report, mirror_display}
use ma_at.Settlement.Sequence.{
  is_ours, payout_over, retry_payout, await_slash, after_payout, pay_and_confirm,
  resume_from_collateral_posted,
}
use ma_at.Settlement.Trace.{latest, OpenFor, Sound, IsSound}
use ma_at.Settlement.Sound.Sending.{read_intent-Sound}
use ma_at.Settlement.Sound.Confirming.{confirm_settlement_with_retry-Sound}

module _ {W : Type 0} (out : Outside W) where
  pub keeps-bind-compute :
      {B : Type 0} (T : World W → Type 0) (k : Text) (f : Text → Exec W B) (w : World W)
      → T w
      → ((z : Text) → T (f z w).1)
      → T ((compute_zk_proof_hash out k >>= f) w).1
  unfolding compute_zk_proof_hash pure throw ◌>>=◌
  keeps-bind-compute {B} T k f w h g = go (out.proof_bin k w.outside)
    where
      go : (d : Option Text) → T ((or_missing out d >>= f) w).1
      go none = h
      go (some z) = g z

module _ {W : Type 0} (out : Outside W) (cfg : Config) where
  reread-Sound :
      {B : Type 0} (n : ℕ) (id : Text) (on_chain : OnChainIntent) (f : OnChainIntent → Exec W B)
      (w : World W)
      → ((o : OnChainIntent) (w' : World W)
          → latest id w'.trace ≡ some o
          → Sound w'.trace
          → Sound (f o w').1.trace)
      → latest id w.trace ≡ some on_chain
      → Sound w.trace
      → Sound ((reread out cfg n id on_chain >>= f) w).1.trace
  unfolding reread
  reread-Sound zero id on_chain f w k l s = keeps-bind-pure IsSound on_chain f w (k on_chain w l s)
  reread-Sound (suc n) id on_chain f w k l s =
      keeps-bind-if IsSound (looks_unposted out cfg on_chain) _ _ f w
        (λ e. rw bind_assoc (
          keeps-bind-sleep IsSound out _ _ w λ o. rw bind_assoc (
            read_intent-Sound out id _ (move o w) s
              λ again w' l' s'. reread-Sound n id again f w' k l' s')))
        (λ e. keeps-bind-pure IsSound on_chain f w (k on_chain w l s))

  read_after-Sound :
      {B : Type 0} (id : Text) (f : OnChainIntent → Exec W B) (w : World W)
      → Sound w.trace
      → ((o : OnChainIntent) (w' : World W)
          → latest id w'.trace ≡ some o
          → Sound w'.trace
          → Sound (f o w').1.trace)
      → Sound ((read_intent_after_post_collateral out cfg id >>= f) w).1.trace
  unfolding read_intent_after_post_collateral
  read_after-Sound id f w s k = rw bind_assoc (
      read_intent-Sound out id _ w s
        λ o w' l s'. reread-Sound (cfg.post_collateral_verify_attempts - 1) id o f w' k l s')

-- The check of step 2, as what the chain says.
is_ours-OpenFor :
    (solver : Text) (o : OnChainIntent) → is_ours solver o ≡ true → OpenFor solver (some o)
unfolding is_ours
is_ours-OpenFor solver o e = ground (arith, text_eq_iff (addr_key o.solver) (addr_key solver))

module _ {W : Type 0} (out : Outside W) (cfg : Config) (deps : Deps W) where
  retry_payout-Sound :
      (fuel : ℕ) (id : Text) (json : ProofOutputJson) (z : Text) (result : SolanaPayoutResult)
      (w : World W)
      → OpenFor deps.solver_address (latest id w.trace)
      → Sound w.trace
      → Sound (retry_payout out cfg deps fuel id json z result w).1.trace
  unfolding retry_payout run_solana_payout
  retry_payout-Sound zero id json z result w op s =
      keeps-branch IsSound (payout_over out cfg deps json result w) _ _
        (λ e. keeps-pure IsSound result w s) (λ e. keeps-out_of_fuel SolanaPayoutResult IsSound w s)
  retry_payout-Sound (suc fuel) id json z result w op s =
      keeps-branch IsSound (payout_over out cfg deps json result w) _ _
        (λ e. keeps-pure IsSound result w s)
        (λ e. keeps-bind-sleep IsSound out _ _ w λ o.
          keeps-bind IsSound _ _ (move o w) (op, s)
            λ again e'. retry_payout-Sound fuel id json z again _ op (op, s))

  after_payout-Sound :
      (fuel : ℕ) (id : Text) (json : ProofOutputJson) (z : Text) (result : SolanaPayoutResult)
      (w : World W)
      → Sound w.trace
      → Sound (after_payout out cfg deps fuel id json z result w).1.trace
  unfolding after_payout await_slash report mirror_display
  after_payout-Sound fuel id json z result w s =
      keeps-if IsSound result.ok _ _ w
        (λ e. confirm_settlement_with_retry-Sound out cfg fuel id json z w s)
        (λ e. keeps-modify IsSound _ w s)

  paid-Sound :
      (fuel : ℕ) (id : Text) (json : ProofOutputJson) (z : Text) (w : World W)
      → OpenFor deps.solver_address (latest id w.trace)
      → Sound w.trace
      → Sound
          ((run_solana_payout out deps id z >>= λ first.
              retry_payout out cfg deps fuel id json z first
              >>= after_payout out cfg deps fuel id json z)
            w).1.trace
  unfolding run_solana_payout
  paid-Sound fuel id json z w op s =
      keeps-bind IsSound _ _ w (op, s)
        λ first e.
          let retried = retry_payout-Sound fuel id json z first _ op (op, s) in
          keeps-bind IsSound _ _ _ retried
            λ result e'. after_payout-Sound fuel id json z result _ retried

  pay_and_confirm-Sound :
      (fuel : ℕ) (id : Text) (json : ProofOutputJson) (w : World W)
      → OpenFor deps.solver_address (latest id w.trace)
      → Sound w.trace
      → Sound (pay_and_confirm out cfg deps fuel id json w).1.trace
  unfolding pay_and_confirm
  pay_and_confirm-Sound fuel id json w op s =
      keeps-bind-compute out IsSound (key_of id) _ w s λ z. paid-Sound fuel id json z w op s

  pub resume-Sound :
      (fuel : ℕ) (id : Text) (json : ProofOutputJson) (w : World W)
      → Sound w.trace
      → Sound (resume_from_collateral_posted out cfg deps fuel id json w).1.trace
  unfolding resume_from_collateral_posted report
  resume-Sound fuel id json w s = read_after-Sound out cfg id _ w s λ o w' l s'.
      keeps-if IsSound (is_ours deps.solver_address o) _ _ w'
        (λ e.
          pay_and_confirm-Sound fuel id json w' (rw l (is_ours-OpenFor deps.solver_address o e)) s')
        (λ e. keeps-modify IsSound _ w' s')
