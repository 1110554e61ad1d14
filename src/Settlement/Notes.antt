-- ===== src/Settlement/Notes.antt =====
-- What the settlement leaves for the operator and the dashboard: alert, recordAlertReason,
-- mirrorDisplay, mirrorRouting and refuseArbitrumSettlement.
use ma_at.Prelude.{ℕ, Option, none, some, ◌∷◌, ◌++◌, Text, text, key_of, or_else}
use ma_at.Redact.{redact}
use ma_at.ProofOutput.{ProofOutputJson}
use ma_at.ArbitrumLedger.{
  ArbitrumStage, RoutingDecision, Patch, no_patch, given, set_arbitrum_stage,
}
use ma_at.IntentState.{ArbitrumSettlementStage, StateDir}
use ma_at.IntentState.Setters.{
  SettlementPatch, stage_patch, record_alert_reason, set_arbitrum_settlement, set_solver_routing,
}
use ma_at.Settlement.World.{Outside, World, now_ms}

module _ {W : Type 0} (out : Outside W) where
  -- The line that alerts.log gets, less its time.
  unfoldable pub alert : Text → World W → World W
  alert message w = record w { side = record w.side { alerts = redact message ∷ w.alerts } }

  abbrev pub write_state : (ℕ → StateDir → StateDir) → World W → World W
  write_state set w = record w { side = record w.side { states = set (now_ms out w) w.states } }

  abbrev pub set_stage : Text → ArbitrumStage → Patch → World W → World W
  set_stage id stage patch w = record w {
    ledger = set_arbitrum_stage id stage patch (now_ms out w) w.ledger;
  }

  unfoldable pub mirror_display : Text → SettlementPatch → World W → World W
  mirror_display id patch = write_state (set_arbitrum_settlement id patch)

  abbrev pub mirror_reason : Text → RoutingDecision → Option Text → World W → World W
  mirror_reason id r none w = w
  mirror_reason id r (some reason) w =
      write_state
        (set_solver_routing id (record {
          solver = or_else r.selected_solver none;
          tier = or_else r.tier_at_selection none;
          reason = reason;
        }))
        w

  unfoldable pub mirror_routing : Text → Option RoutingDecision → World W → World W
  mirror_routing id none w = w
  mirror_routing id (some r) w = mirror_reason id r r.routing_reason w

  -- `alert(`intent ${id}: ${reason}`); recordAlertReason(id, reason);`
  unfoldable pub report : Text → Text → World W → World W
  unfolding alert
  report id reason w =
      write_state (record_alert_reason id reason)
        (alert (text "intent 0x" ++ (key_of id ++ (text ": " ++ reason))) w)

  unfoldable pub refuse_arbitrum_settlement :
      Text → ProofOutputJson → Text → Option RoutingDecision → World W → World W
  unfolding mirror_display mirror_routing report
  refuse_arbitrum_settlement id json reason routing w =
      mirror_display id
        (record (stage_patch ArbitrumSettlementStage.collateral_failed) { reason = some reason })
        (mirror_routing id routing (
          set_stage id ArbitrumStage.collateral_failed
            (record no_patch { routing = routing; expiry = given (some json.expiry) })
            (report id reason w)))
