-- ===== src/IntentState/Setters.antt =====
-- The setters of orchestrator/src/intent_state.ts, each a patch of the state that is on file. A
-- reason is redacted before it is stored.
use ma_at.Prelude.{ℕ, Option, none, some, Text, or_else, or_option}
use ma_at.Redact.{redact}
use ma_at.ArbitrumLedger.{Given, absent, over}
use ma_at.IntentState.{
  ProofStatus, queued, proving, retrying, verified, rejected, alert, settling, settled,
  unconfirmed_needs_review, ArbitrumSettlementStage, SolverRoutingStatus, final,
  IntentCreatedFields, StateDir, upsert,
}

abbrev queued_at : ProofStatus → ℕ → Option ℕ → Option ℕ
queued_at queued now old = some now
queued_at _ now old = old

unfoldable pub record_intent_created : IntentCreatedFields → ProofStatus → ℕ → StateDir → StateDir
record_intent_created fields proof_status now =
    upsert fields.intent_id
      (λ prev.
        let times = prev.timestamps in
        record prev {
          fields = fields;
          proof_status = proof_status;
          timestamps = record times { queued_at = queued_at proof_status now times.queued_at };
        })
      now

unfoldable pub set_proving : Text → ℕ → StateDir → StateDir
set_proving intent_id now =
    upsert intent_id
      (λ prev.
        let times = prev.timestamps in
        record prev {
          proof_status = proving;
          timestamps = record times {
            proving_started_at = some (or_else times.proving_started_at now);
          };
        })
      now

unfoldable pub set_retrying : Text → ℕ → ℕ → ℕ → StateDir → StateDir
set_retrying intent_id attempt max_attempts now =
    upsert intent_id (λ prev. record prev { proof_status = retrying attempt max_attempts }) now

unfoldable pub set_verified : Text → Text → ℕ → StateDir → StateDir
set_verified intent_id vkey now =
    upsert intent_id
      (λ prev.
        let times = prev.timestamps in
        record prev {
          vkey = some vkey;
          proof_status = verified;
          timestamps = record times { verified_at = some now };
        })
      now

unfoldable pub set_rejected : Text → Text → ℕ → StateDir → StateDir
set_rejected intent_id reason now =
    upsert intent_id
      (λ prev. record prev { proof_status = rejected; reject_reason = some (redact reason) }) now

unfoldable pub set_alert : Text → Text → ℕ → StateDir → StateDir
set_alert intent_id reason now =
    upsert intent_id
      (λ prev. record prev { proof_status = alert; alert_reason = some (redact reason) }) now

unfoldable pub record_alert_reason : Text → Text → ℕ → StateDir → StateDir
record_alert_reason intent_id reason now =
    upsert intent_id (λ prev. record prev { alert_reason = some (redact reason) }) now

unfoldable pub set_settling : Text → Text → ℕ → StateDir → StateDir
set_settling intent_id sig now =
    upsert intent_id
      (λ prev.
        let times = prev.timestamps in
        record prev {
          settlement = settling sig;
          timestamps = record times { settling_at = some now };
        })
      now

unfoldable pub set_settled : Text → Text → ℕ → StateDir → StateDir
set_settled intent_id sig now =
    upsert intent_id
      (λ prev.
        let times = prev.timestamps in
        record prev {
          settlement = settled sig;
          timestamps = record times { settled_at = some now };
        })
      now

unfoldable pub set_unconfirmed_needs_review : Text → Text → ℕ → StateDir → StateDir
set_unconfirmed_needs_review intent_id sig now =
    upsert intent_id (λ prev. record prev { settlement = unconfirmed_needs_review sig }) now

-- Partial<ArbitrumSettlementStatus>; every caller gives the stage.
pub record SettlementPatch : Type 0 where
  pub stage : ArbitrumSettlementStage
  pub collateral_tx_hash : Given (Option Text)
  pub confirm_tx_hash : Given (Option Text)
  pub slash_tx_hash : Given (Option Text)
  pub reason : Option Text

abbrev pub stage_patch : ArbitrumSettlementStage → SettlementPatch
stage_patch stage = record {
  stage = stage;
  collateral_tx_hash = absent;
  confirm_tx_hash = absent;
  slash_tx_hash = absent;
  reason = none;
}

abbrev redact_given : Option Text → Option Text
redact_given none = none
redact_given (some reason) = some (redact reason)

unfoldable pub set_arbitrum_settlement : Text → SettlementPatch → ℕ → StateDir → StateDir
set_arbitrum_settlement intent_id patch now =
    upsert intent_id
      (λ prev.
        let old = prev.arbitrum_settlement in
        record prev {
          arbitrum_settlement = record {
            stage = patch.stage;
            collateral_tx_hash = over patch.collateral_tx_hash old.collateral_tx_hash;
            confirm_tx_hash = over patch.confirm_tx_hash old.confirm_tx_hash;
            slash_tx_hash = over patch.slash_tx_hash old.slash_tx_hash;
            reason = or_option (redact_given patch.reason) old.reason;
          };
        })
      now

unfoldable pub set_solver_routing : Text → SolverRoutingStatus → ℕ → StateDir → StateDir
set_solver_routing intent_id routing now =
    upsert intent_id
      (λ prev. record prev {
        solver_routing = some (record {
          solver = routing.solver;
          tier = routing.tier;
          reason = redact routing.reason;
        });
      })
      now

unfoldable pub set_final : Text → ℕ → StateDir → StateDir
set_final intent_id now =
    upsert intent_id
      (λ prev.
        let times = prev.timestamps in
        record prev { finality = final; timestamps = record times { final_at = some now } })
      now
