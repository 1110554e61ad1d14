-- ===== src/Examples/Ending.antt =====
-- The settlement's ends at the fixture, whose clock ticks.
use ma_at.Prelude.{ℕ, suc, ◌+◌, ◌*◌, ◌≤◌, ◌≡◌, some, subst, Text, text, text_eq, arith}
use ma_at.ProofOutput.{ProofOutputJson}
use ma_at.ArbitrumLedger.{ArbitrumStage}
use ma_at.Settlement.Chain.{read_proof_json}
use ma_at.Settlement.Slash.{poll_awaiting_slash}
use ma_at.Settlement.Ends.Polling.{Suffices, poll_awaiting_slash-Ends}
use ma_at.Settlement.World.{World, now_ms}
use ma_at.Settlement.Confirm.{confirm_deadline}
use ma_at.Settlement.Sequence.{run_arbitrum_settlement_sequence}
use ma_at.Settlement.Ends.{Ticks, Ends}
use ma_at.Settlement.Ends.Payouts.{Timely, Waits}
use ma_at.Settlement.Ends.Sequencing.{sequence-Ends, build_real_deps-Timely}
use ma_at.Examples.Fixture.{
  intent, solver_one, proof, out, cfg, pay, deps, world, empty_ledger, ledger_at,
}

out-Ticks : Ticks out
out-Ticks = record {
  sleeps = λ ms o. omega arith;
  balances = λ solver o. (tt, omega arith);
  reads = λ id o. (tt, omega arith);
  signs = λ from tx o. (tt, omega arith);
  sends = λ hash o. (tt, omega arith);
}

deps-Timely : Timely out cfg deps
deps-Timely = build_real_deps-Timely out cfg solver_one pay out-Ticks (λ z s. (tt, omega arith))

cfg-Waits : Waits out cfg deps
cfg-Waits = record { confirms = (omega arith, tt); payouts = omega arith }

enough_fuel : confirm_deadline out cfg proof * 1000 ≤ 8500000 + now_ms out (world empty_ledger)
unfolding confirm_deadline
enough_fuel = omega arith

sequence-Ends_example :
    Ends out 100000 (
      run_arbitrum_settlement_sequence out cfg deps (suc 8500000) intent proof (world empty_ledger))
sequence-Ends_example =
    sequence-Ends out cfg deps 8500000 intent proof (world empty_ledger) out-Ticks deps-Timely
      cfg-Waits enough_fuel

the_proof :
    (id : Text) (w : World ℕ) (json : ProofOutputJson)
    → read_proof_json out id w ≡ some json
    → proof ≡ json
unfolding read_proof_json text_eq text
the_proof id w json e = cc e

out-Suffices : Suffices out cfg 8500000 100000
out-Suffices = record {
  ticks = out-Ticks;
  looks = λ sig o. (tt, omega arith);
  positive = (omega arith, tt);
  fueled = λ id w json e.
      subst (λ (j : ProofOutputJson). confirm_deadline out cfg j * 1000 ≤ 8500000 + 100000)
        (the_proof id w json e) enough_fuel;
}

-- The intent is due, and its payout has not landed.
poll_awaiting_slash-Ends_example : Ends out 100000 (
    poll_awaiting_slash out cfg
      (suc 8500000)
      (world (ledger_at ArbitrumStage.awaiting_expiry_slash)))
poll_awaiting_slash-Ends_example =
    poll_awaiting_slash-Ends out cfg 8500000 100000 out-Suffices
      (world (ledger_at ArbitrumStage.awaiting_expiry_slash)) (omega arith)
