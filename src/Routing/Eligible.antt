-- ===== src/Routing/Eligible.antt =====
-- When a candidate of orchestrator/src/solver_routing.ts is eligible.
use ma_at.Prelude.{
  ℕ, ◌+◌, ◌*◌, ◌/◌, ◌≤◌, ◌<◌, ◌≡◌, ◌↔◌, refl, Bool, true, Option, none, some, List, [], ◌∷◌, arith,
  Text, text_eq_iff, addr_key, is_empty, append-empty_iff,
}
use ma_at.Prelude.Int.{ℤ, pos, ◌≤ℤ◌}
use ma_at.IntentStatus.{OnChainIntent, intent_status_pending, is_zero_address, zero_address}
use ma_at.ProofOutput.{ProofOutputJson}
use ma_at.Gate.{GateCheck, evaluate_arbitrum_gate, gate_ok}
use ma_at.Gate.Checks.{gate_ok_iff}
use ma_at.SolverStats.Record.{ReadSolverRecordResult}
use ma_at.SolverStats.Tier.{compute_tier, tier_cap_wei}
use ma_at.Routing.Candidate.{
  eligible, with_capital, approval_reasons, intent_failure, cap_reasons, gate_params, Policy,
  reservation_wei, record_of,
}
use ma_at.Routing.Decide.{Inputs, judge, gate_reasons}

-- The chain has the intent Pending and without a solver.
abbrev pub Open : Option OnChainIntent → Type 0
Open none = ⊥
Open (some o) = (o.status ≡ intent_status_pending) × (addr_key o.solver ≡ zero_address)

-- The cap of the tier that a solver has.
abbrev pub cap_for : Inputs → Text → ReadSolverRecordResult → ℕ
cap_for i solver stats =
    tier_cap_wei
      (compute_tier (i.policy.get_onboarding_tier solver) (record_of solver stats)
        i.policy.tier_config stats.complete)
      i.policy.max_transfer_wei i.policy.tier_cap_pct

with_capital-empty :
    (available : ℤ) (required : ℕ) (fs : List GateCheck)
    → is_empty (with_capital available required fs) ≡ gate_ok fs
unfolding with_capital gate_ok
with_capital-empty available required [] = refl
with_capital-empty available required (f ∷ fs) = refl

pub gate-empty_iff :
    (json : ProofOutputJson) (policy : Policy) (now : ℕ) (available : ℤ)
    → (is_empty (
          with_capital available
            (reservation_wei policy json)
            (evaluate_arbitrum_gate json (gate_params policy now available)))
        ≡ true)
      ↔ ((addr_key json.token_address ≡ zero_address)
          × (json.amount ≤ policy.max_transfer_wei)
          × (pos (json.amount * 150 / 100 + policy.gas_buffer_wei) ≤ℤ available)
          × (now + policy.delivery_margin_sec < json.expiry))
gate-empty_iff json policy now available =
    rw
      (with_capital-empty available (reservation_wei policy json)
        (evaluate_arbitrum_gate json (gate_params policy now available)))
      (gate_ok_iff json (gate_params policy now available))

approval-empty_iff :
    (approved : Bool) → (is_empty (approval_reasons (some approved)) ≡ true) ↔ (approved ≡ true)
unfolding approval_reasons
approval-empty_iff approved = ground arith

intent-empty : (o : Option OnChainIntent) → (is_empty (intent_failure o) ≡ true) ↔ Open o
unfolding intent_failure is_zero_address
intent-empty none = ground arith
intent-empty (some o) = ground (arith, text_eq_iff (addr_key o.solver) zero_address)

cap-empty : (tier cap amount : ℕ) → (is_empty (cap_reasons tier cap amount) ≡ true) ↔ (amount ≤ cap)
unfolding cap_reasons
cap-empty tier cap amount = ground arith

-- A candidate whose readings succeeded is eligible exactly if it is approved, the gate passes on its
-- available capital, the chain has the intent Pending and without a solver, and the amount is
-- within the cap of its tier.
pub judge-eligible_iff :
    (i : Inputs) (solver : Text) (approved : Bool) (available : ℤ) (stats : ReadSolverRecordResult)
    → (eligible (judge i solver (some approved) (some available) (some stats)) ≡ true) ↔ (
        (approved ≡ true)
        × (((addr_key i.json.token_address ≡ zero_address)
              × (i.json.amount ≤ i.policy.max_transfer_wei)
              × (pos (i.json.amount * 150 / 100 + i.policy.gas_buffer_wei) ≤ℤ available)
              × (i.now_sec + i.policy.delivery_margin_sec < i.json.expiry))
            × (Open i.on_chain × (i.json.amount ≤ cap_for i solver stats))))
unfolding eligible judge gate_reasons
judge-eligible_iff i solver approved available stats =
    append-empty_iff (approval_reasons (some approved)) _ (approval-empty_iff approved) (
      append-empty_iff (with_capital available (reservation_wei i.policy i.json) checks) _
        (gate-empty_iff i.json i.policy i.now_sec available)
        (append-empty_iff (intent_failure i.on_chain) _ (intent-empty i.on_chain)
          (cap-empty _ (cap_for i solver stats) i.json.amount)))
  where
    checks : List GateCheck
    checks = evaluate_arbitrum_gate i.json (gate_params i.policy i.now_sec available)
