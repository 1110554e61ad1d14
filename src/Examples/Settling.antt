-- ===== src/Examples/Settling.antt =====
-- The settlement's theorems at the fixture.
use ma_at.Prelude.{ℕ, none, some, if◌then◌else◌, ltb}
use ma_at.IntentStatus.{OnChainIntent, zero_address}
use ma_at.Settlement.World.{ok, Outside}
use ma_at.ArbitrumLedger.{ArbitrumStage}
use ma_at.Settlement.Chain.{build_real_deps}
use ma_at.Settlement.Sequence.{run_arbitrum_settlement_sequence}
use ma_at.Settlement.Slash.{poll_awaiting_slash}
use ma_at.Settlement.Reconcile.{reconcile_arbitrum_ledger}
use ma_at.Settlement.Trace.{Sound}
use ma_at.Settlement.Sound.Posting.{sequence-Sound, build_real_deps-PostsSoundly}
use ma_at.Settlement.Sound.Slashing.{poll-Sound}
use ma_at.Settlement.Sound.Booting.{reconcile-Sound}
use ma_at.Routing.Dispatch.{DispatchDeps, dispatch_arbitrum_settlement}
use ma_at.Routing.Sound.{dispatch-Sound}
use ma_at.Examples.Fixture.{
  intent, solver_one, proof, out, cfg, pay, deps, world, empty_ledger, ledger_at, dispatch_deps,
  on_chain,
}

sequence-Sound_example :
    Sound
      (run_arbitrum_settlement_sequence out cfg deps 9 intent proof (world empty_ledger)).1.trace
unfolding build_real_deps
sequence-Sound_example =
    sequence-Sound out cfg deps 9 intent proof (world empty_ledger)
      (build_real_deps-PostsSoundly out cfg solver_one pay none) tt

-- No solver is on the intent until the collateral is mined, a second after the start.
abbrev open_at : ℕ → OnChainIntent
open_at now = if ltb now 101000 then record on_chain { solver = zero_address } else on_chain

abbrev opening : Outside ℕ
opening = record out { read_intent = λ id now. (ok (open_at now), now) }

abbrev opening_deps : DispatchDeps ℕ
opening_deps = record dispatch_deps {
  build_settlement_deps = λ solver. build_real_deps opening cfg solver pay;
}

dispatch-Sound_example :
    Sound
      (dispatch_arbitrum_settlement opening cfg opening_deps 9 intent proof
        (world empty_ledger)).1.trace
unfolding build_real_deps
dispatch-Sound_example =
    dispatch-Sound opening cfg opening_deps 9 intent proof (world empty_ledger)
      (λ solver. build_real_deps-PostsSoundly opening cfg solver pay none) tt

poll-Sound_example :
    Sound
      (poll_awaiting_slash out cfg 9
        (world (ledger_at ArbitrumStage.awaiting_expiry_slash))).1.trace
poll-Sound_example = poll-Sound out cfg 9 (world (ledger_at ArbitrumStage.awaiting_expiry_slash)) tt

reconcile-Sound_example :
    Sound
      (reconcile_arbitrum_ledger out cfg deps
        (some (λ id json. pay))
        9
        (world (ledger_at ArbitrumStage.confirming))).1.trace
reconcile-Sound_example =
    reconcile-Sound out cfg deps (some (λ id json. pay)) 9
      (world (ledger_at ArbitrumStage.confirming)) tt
