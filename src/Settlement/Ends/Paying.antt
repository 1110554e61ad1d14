-- ===== src/Settlement/Ends/Paying.antt =====
-- Termination of the steps between two waits of runArbitrumSettlementSequence.
use ma_at.Prelude.{
  ℕ, zero, suc, ◌-◌, ◌≤◌, ◌≡◌, refl, Bool, true, false, Option, none, some, if◌then◌else◌, arith,
  Text,
}
use ma_at.IntentStatus.{OnChainIntent}
use ma_at.ArbitrumLedger.{RoutingDecision}
use ma_at.Settlement.World.{Outside, World, pure, throw, ◌>>=◌, ◌>>◌, sleep, now_ms}
use ma_at.Settlement.Chain.{
  Config, read_intent, reread, looks_unposted, read_intent_after_post_collateral,
  compute_zk_proof_hash, or_missing,
}
use ma_at.Settlement.Notes.{mirror_reason, mirror_routing}
use ma_at.Settlement.Ends.{Ticks, Ends, Still, Ends-pure, Ends-bind, Ends-bind-observe}

module _ {W : Type 0} (out : Outside W) (cfg : Config) (t : ℕ) where
  -- A sleep of any length.
  pub rest-Ends :
      (ms : ℕ) (w : World W) → Ticks out → t ≤ now_ms out w → Ends out t (sleep out ms w)
  unfolding sleep
  rest-Ends ms w ticks h = (tt, omega (arith, ticks.sleeps ms w.outside, h))

  reread-Ends :
      (n : ℕ) (id : Text) (o : OnChainIntent) (w : World W)
      → Ticks out
      → t ≤ now_ms out w
      → Ends out t (reread out cfg n id o w)
  unfolding reread read_intent
  reread-Ends zero id o w ticks h = Ends-pure out t o w h
  reread-Ends (suc n) id o w ticks h =
      go (looks_unposted out cfg o) (λ o' w'. reread-Ends n id o' w' ticks)
    where
      go :
          (b : Bool)
          → ((o' : OnChainIntent) (w' : World W)
              → t ≤ now_ms out w'
              → Ends out t (reread out cfg n id o' w'))
          → Ends out t (
              (if b
                  then sleep out cfg.post_collateral_verify_delay_ms
                    >> (read_intent out id >>= λ again. reread out cfg n id again)
                  else pure o)
                w)
      go true k =
          Ends-bind out t _ _ w (rest-Ends cfg.post_collateral_verify_delay_ms w ticks h)
            λ u w1 h1. Ends-bind-observe out t _ _ _ w1 (ticks.reads id w1.outside) h1 k
      go false k = Ends-pure out t o w h

  pub read_after-Ends :
      (id : Text) (w : World W)
      → Ticks out
      → t ≤ now_ms out w
      → Ends out t (read_intent_after_post_collateral out cfg id w)
  unfolding read_intent_after_post_collateral read_intent
  read_after-Ends id w ticks h =
      Ends-bind-observe out t _ _ _ w (ticks.reads id w.outside) h
        λ o w1 h1. reread-Ends (cfg.post_collateral_verify_attempts - 1) id o w1 ticks h1

  pub compute-Ends :
      (k : Text) (w : World W) → t ≤ now_ms out w → Ends out t (compute_zk_proof_hash out k w)
  unfolding compute_zk_proof_hash pure throw
  compute-Ends k w h = go (out.proof_bin k w.outside)
    where
      go : (d : Option Text) → Ends out t (or_missing out d w)
      go none = (tt, h)
      go (some z) = (tt, h)

  pub mirror_routing-Still :
      (id : Text) (r : Option RoutingDecision) → Still out (mirror_routing out id r)
  unfolding mirror_routing
  mirror_routing-Still id none w = refl
  mirror_routing-Still id (some r) w = go r.routing_reason
    where
      go : (reason : Option Text) → (mirror_reason out id r reason w).outside ≡ w.outside
      go none = refl
      go (some reason) = refl
