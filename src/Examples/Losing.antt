-- ===== src/Examples/Losing.antt =====
-- A node that fails after it took the transaction, and a dispatch of an intent that is under way.
use ma_at.Prelude.{ℕ, ◌≡◌, refl, true, false, some, [], ◌∷◌, Text, head?, text_eq, addr_key, text}
use ma_at.Prelude.Dict
use ma_at.IntentStatus.{is_zero_address, zero_address}
use ma_at.Gate.{evaluate_arbitrum_gate, gate_ok, required_collateral}
use ma_at.ArbitrumLedger.{get_arbitrum_ledger_entry, load_ledger}
use ma_at.Settlement.World.{threw, Outside, post_collateral, move}
use ma_at.Settlement.Chain.{build_real_deps}
use ma_at.Settlement.Sequence.{is_under_way, failed_checks, run_arbitrum_settlement_sequence}
use ma_at.Settlement.Trace.{sent}
use ma_at.Settlement.Lost.{Forgotten, on_record, lost_posting-Forgotten}
use ma_at.Routing.Book.{reservation, reserve}
use ma_at.Routing.Decide.{selected, only_eligible, SelectionResult}
use ma_at.Routing.Release.{Resolved}
use ma_at.Routing.Once.{settle_with-Resolved, build_real_deps-Apart}
use ma_at.Routing.Dispatch.{settle_with}
use ma_at.Examples.Fixture.{
  intent, solver_one, proof, out, cfg, pay, world, empty_ledger, dispatch_deps,
}

abbrev error : Text
error = 33 ∷ []

abbrev flaky : Outside ℕ
flaky = record out { send_and_wait = λ hash o. (threw error, o) }

new_intent : is_under_way (get_arbitrum_ledger_entry intent (world empty_ledger).ledger) ≡ false
unfolding get_arbitrum_ledger_entry load_ledger Dict.get
new_intent = refl

gate_passes :
    gate_ok (
      failed_checks flaky cfg
        (build_real_deps flaky cfg solver_one pay)
        proof
        1000000
        (move 100000 (world empty_ledger)))
    ≡ true
unfolding gate_ok failed_checks evaluate_arbitrum_gate is_zero_address zero_address text_eq addr_key
    text required_collateral
gate_passes = refl

lost_posting-Forgotten_example :
    Forgotten (
      get_arbitrum_ledger_entry intent
        (run_arbitrum_settlement_sequence flaky cfg
          (build_real_deps flaky cfg solver_one pay)
          9
          intent
          proof
          (world empty_ledger)).1.ledger)
    × (head?
          (run_arbitrum_settlement_sequence flaky cfg
            (build_real_deps flaky cfg solver_one pay)
            9
            intent
            proof
            (world empty_ledger)).1.trace
        ≡ some (
            sent (post_collateral intent (required_collateral 1000)) intent (
              on_record flaky cfg solver_one pay intent proof intent 100000
                (move 100000 (world empty_ledger)))))
lost_posting-Forgotten_example =
    lost_posting-Forgotten flaky cfg solver_one pay 9 intent proof (world empty_ledger) 1000000
      intent error 100000 100000 100000 new_intent refl gate_passes refl refl

-- A selection of the first solver.
abbrev selection : SelectionResult
selection = record {
  outcome = selected solver_one (some 3) only_eligible;
  collateral_wei = 1500;
  reservation = 1510;
  candidates = [];
}

settle_with-Resolved_example : Resolved (
    reservation solver_one intent
      (settle_with out cfg dispatch_deps 9 intent proof selection
        (selected solver_one (some 3) only_eligible)
        (record (world empty_ledger) { book = reserve solver_one intent 1510 [] })).1.book)
settle_with-Resolved_example =
    settle_with-Resolved out cfg dispatch_deps 9 intent proof selection solver_one (some 3)
      only_eligible (record (world empty_ledger) { book = reserve solver_one intent 1510 [] })
      (build_real_deps-Apart out cfg dispatch_deps solver_one pay)
