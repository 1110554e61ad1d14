-- ===== src/Examples/Selecting.antt =====
-- Routing, the gate and the settled ledger at the fixture.
use ma_at.Prelude.{
  ◌+◌, ◌*◌, ◌/◌, ◌≤◌, ◌<◌, ◌≡◌, ◌↔◌, refl, true, false, some, List, [], ◌∷◌, All, Any, Text, text,
  text_eq, addr_key, keep_if,
}
use ma_at.Prelude.Dict
use ma_at.Prelude.Int.{pos, ◌≤ℤ◌, ◌-ℤ◌}
use ma_at.IntentStatus.{OnChainIntent, zero_address, is_zero_address}
use ma_at.Gate.{ArbitrumGateParams, evaluate_arbitrum_gate, gate_ok}
use ma_at.Gate.Checks.{gate_ok_iff}
use ma_at.Routing.Book.{reserved_wei}
use ma_at.SolverStats.Tier.{compute_tier, tier_cap_wei, default_tier_cap_pct}
use ma_at.Routing.Candidate.{
  CandidateRead, eligible, in_flight, ledger_reserved_wei, approval_reasons, with_capital,
  intent_failure, cap_reasons,
}
use ma_at.Routing.Decide.{Inputs, decide, judge, cap_of, no_eligible, selected, lowest_address}
use ma_at.Routing.Capital.{held}
use ma_at.Routing.Eligible.{Open, cap_for, judge-eligible_iff}
use ma_at.Routing.Select.{decide-none, decide-cheapest}
use ma_at.SolverStats.Record.{to_record, ReadSolverRecordResult}
use ma_at.Examples.Fixture.{intent, solver_one, solver_two, proof, on_chain, policy}

abbrev nobody_on_it : OnChainIntent
nobody_on_it = record on_chain { solver = zero_address }

abbrev no_records : ReadSolverRecordResult
no_records = record { records = []; errors = []; complete = true }

abbrev asked : Inputs
asked = record {
  policy = policy;
  json = proof;
  now_sec = 100;
  now_ms = 100000;
  on_chain = some nobody_on_it;
  stats = some no_records;
  posting = [];
}

abbrev reads : List CandidateRead
reads =
    record { solver = solver_two; approved = some true; balance = some 1510 }
    ∷ record { solver = solver_one; approved = some true; balance = some 1510 }
    ∷ []

abbrev poor : List CandidateRead
poor = record { solver = solver_two; approved = some true; balance = some 1509 } ∷ []

-- Two equal candidates: the lower address is selected.
tie_break : (decide asked intent reads []).0.outcome ≡ selected solver_one (some 3) lowest_address
unfolding decide keep_if eligible approval_reasons with_capital evaluate_arbitrum_gate
    is_zero_address text_eq addr_key zero_address ◌-ℤ◌ reserved_wei Dict.get ledger_reserved_wei
    in_flight intent_failure cap_reasons tier_cap_wei default_tier_cap_pct text compute_tier
    to_record
tie_break = refl

-- One wei is missing.
too_poor : (decide asked intent poor []).0.outcome ≡ no_eligible
unfolding decide keep_if eligible approval_reasons with_capital evaluate_arbitrum_gate
    is_zero_address text_eq addr_key zero_address ◌-ℤ◌ reserved_wei Dict.get ledger_reserved_wei
    in_flight intent_failure cap_reasons tier_cap_wei default_tier_cap_pct text
too_poor = refl

decide-cheapest_example :
    Any
      (λ e.
        (e.solver ≡ solver_one)
        × ((eligible e ≡ true)
            × All
                (λ f. eligible f ≡ true → cap_of e ≤ cap_of f)
                (decide asked intent reads []).0.candidates))
      (decide asked intent reads []).0.candidates
decide-cheapest_example =
    decide-cheapest asked intent reads [] solver_one (some 3) lowest_address tie_break

decide-none_example :
    All (λ e. eligible e ≡ false) (decide asked intent poor []).0.candidates
    × ((s : Text) → held s 100000 (decide asked intent poor []).1 ≡ held s 100000 [])
decide-none_example = decide-none asked intent poor [] too_poor

judge-eligible_iff_example :
    (eligible (judge asked solver_one (some true) (some (pos 1510)) (some no_records)) ≡ true) ↔ (
      (true ≡ true)
      × (((addr_key zero_address ≡ zero_address)
            × (1000 ≤ 100000)
            × (pos (1000 * 150 / 100 + 10) ≤ℤ pos 1510)
            × (100 + 600 < 5000))
          × (Open (some nobody_on_it) × (1000 ≤ cap_for asked solver_one no_records))))
judge-eligible_iff_example = judge-eligible_iff asked solver_one true (pos 1510) no_records

abbrev gate_params : ArbitrumGateParams
gate_params = record {
  max_transfer_wei = 100000;
  solver_balance_wei = pos 1510;
  gas_buffer_wei = 10;
  now_sec = 100;
  delivery_margin_sec = 600;
}

gate_ok_iff_example : (gate_ok (evaluate_arbitrum_gate proof gate_params) ≡ true) ↔ (
    (addr_key zero_address ≡ zero_address)
    × (1000 ≤ 100000)
    × (pos (1000 * 150 / 100 + 10) ≤ℤ pos 1510)
    × (100 + 600 < 5000))
gate_ok_iff_example = gate_ok_iff proof gate_params
