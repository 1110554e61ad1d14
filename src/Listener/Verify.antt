-- ===== src/Listener/Verify.antt =====
-- The job of triggerZKVerification in orchestrator/src/listener.ts: prove, compare with the canonical
-- block, pass the gate, and settle with the solver that routing selects.
use ma_at.Prelude.{
  ℕ, ◌&&◌, ◌||◌, ◌==◌, List, [], ◌∷◌, ◌++◌, if◌then◌else◌, Text, text, show_ℕ, map, to_lower,
}
use ma_at.ProofOutput.{ProofOutputJson}
use ma_at.SettledLedger.{get_ledger_entry, is_already_settled}
use ma_at.SettleGate.{
  SettleCheck, contract, block_hash, vkey, already_settled, destination_chain_id, expiry,
  evaluate_settle_gate, settle_gate_ok,
}
use ma_at.IntentState.Setters.{record_alert_reason}
use ma_at.Settlement.World.{
  Reply, ok, threw, unfinished, Outside, World, Exec, pure, ◌>>◌, modify, now_ms, move,
}
use ma_at.Settlement.Chain.{Config, build_real_deps}
use ma_at.Settlement.Notes.{alert, write_state}
use ma_at.Routing.Dispatch.{DispatchDeps, dispatch_arbitrum_settlement}
use ma_at.Prover.{
  ProverRun, ProverOutcome, settle_check, prover_rejected, prover_alert, prove_intent,
}
use ma_at.Destination.{Bytes, decode_destination_wallet}
use ma_at.Listener.Payout.{Child, is_settling, run_solana_payout}

-- What the process is set up with, and the code that is not under src: the prover, the block reader
-- of the client, the payout's child, SHA-256 and the base58 form of a Solana key.
pub record Setup (W : Type 0) : Type 0 where
  pub config : Config
  pub contract : Text
  pub routing : DispatchDeps W
  pub run_prover : Text → W → ProverRun × W
  pub get_block_hash : ℕ → W → Reply Text × W
  pub child : Child W
  pub sha256 : Bytes → Bytes
  pub solana_base58 : Bytes → Text

abbrev check_name : SettleCheck → Text
check_name contract = text "contract"
check_name block_hash = text "block_hash"
check_name vkey = text "vkey"
check_name already_settled = text "already_settled"
check_name destination_chain_id = text "destination_chain_id"
check_name expiry = text "expiry"

abbrev join : List Text → Text
join [] = []
join (t ∷ []) = t
join (t ∷ u ∷ ts) = t ++ (text ", " ++ join (u ∷ ts))

-- `intentId.replace(/^0x/, "").toLowerCase()`
unfoldable pub intent_id_hex : Text → Text
intent_id_hex (a ∷ b ∷ t) = map to_lower (if (a == 48) && (b == 120) then t else a ∷ b ∷ t)
intent_id_hex t = map to_lower t

pub gate_reason : List SettleCheck → Text
gate_reason failed =
    text "settle gate REFUSED (failed: "
    ++ (join (map check_name failed) ++ text ") — not settling")

pub block_reason : ℕ → Text → Text
block_reason block_number e =
    text "failed to fetch canonical block "
    ++ (show_ℕ block_number ++ (text " for the settle gate: " ++ e))

pub ledger_reason : Text
ledger_reason =
    text
      "already settled or mid-settlement per local ledger — refusing to re-invoke settle_intent.js"

module _ {W : Type 0} (out : Outside W) (setup : Setup W) where
  -- `alert(...); recordAlertReason(...); return;`
  unfoldable pub refuse : Text → Text → Exec W Unit
  refuse id reason = modify (λ w.
      write_state out (record_alert_reason id reason)
        (alert out (text "intent " ++ (id ++ (text ": " ++ reason))) w))

  -- buildRealRoutingDeps with the payout of this proof.
  abbrev pub routing_deps : ℕ → ProofOutputJson → DispatchDeps W
  routing_deps fuel json = record setup.routing {
    build_settlement_deps = λ solver. build_real_deps out setup.config solver (
        run_solana_payout setup.child fuel json (
          decode_destination_wallet setup.sha256 setup.solana_base58 json.destination_wallet
            json.destination_chain_id));
  }

  unfoldable pub settle : ℕ → ProofOutputJson → Exec W Unit
  settle fuel json =
      dispatch_arbitrum_settlement out setup.config (routing_deps fuel json) fuel json.intent_id
        json
      >> pure tt

  abbrev pub failed_checks : ProofOutputJson → Text → World W → List SettleCheck
  failed_checks json hash w = evaluate_settle_gate json setup.contract hash w.settled (now_ms out w)

  unfoldable pub after_block : ℕ → Text → ProofOutputJson → Reply Text → Exec W Unit
  unfolding refuse settle
  after_block fuel id json (threw e) w = refuse id (block_reason json.block_number e) w
  after_block fuel id json unfinished w = (unfinished, w)
  after_block fuel id json (ok hash) w =
      if settle_gate_ok (failed_checks json hash w)
      then (if is_already_settled json.intent_id w.settled
            || is_settling setup.child (get_ledger_entry json.intent_id w.settled)
          then refuse id ledger_reason w
          else settle fuel json w)
      else refuse id (gate_reason (failed_checks json hash w)) w

  unfoldable pub after_proof : ℕ → Text → ProverOutcome → Exec W Unit
  unfolding after_block
  after_proof fuel id prover_rejected w = pure tt w
  after_proof fuel id prover_alert w = pure tt w
  after_proof fuel id (settle_check json) w =
      let (reply, o) = setup.get_block_hash json.block_number w.outside in
      after_block fuel id json reply (move o w)

  -- The job, with fuel for the loops of the settlement and of the payout.
  unfoldable pub verify_and_settle : ℕ → Text → Text → Exec W Unit
  unfolding after_proof
  verify_and_settle fuel tx_hash id w =
      let (outcome, w') = prove_intent out setup.run_prover tx_hash (intent_id_hex id) w in
      after_proof fuel id outcome w'
