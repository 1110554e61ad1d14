-- ===== src/Settlement/Chain.antt =====
-- The chain side of orchestrator/src/arbitrum_settlement.ts: buildRealDeps with its signAndSend, the
-- read after postCollateral, and the proof files of prover_pipeline.ts. What differs between the
-- callers of the sequence is in `Deps`; the other methods of buildRealDeps are functions here.
use ma_at.Prelude.{
  ℕ, zero, suc, ◌-◌, Bool, true, false, ◌&&◌, Option, none, some, List, ◌∷◌, ◌==◌, if◌then◌else◌,
  Text, text, text_eq,
}
use ma_at.IntentStatus.{OnChainIntent, is_zero_address, intent_status_pending}
use ma_at.ProofOutput.{ProofOutputJson}
use ma_at.ArbitrumLedger.{RoutingDecision, get_arbitrum_ledger_entry}
use ma_at.SettledLedger.{get_ledger_entry}
use ma_at.Settlement.World.{
  Reply, Transaction, post_collateral, confirm_settlement, slash_solver, SolanaPayoutResult,
  TxOutcome, ProofFile, Receipt, success, reverted, Outside, Event, broadcast, payout, saw, checked,
  Side, World, Exec, pure, throw, catch, ◌>>=◌, ◌>>◌, modify, record_event, outward, sleep,
}

-- The values that the module reads from the environment.
pub record Config : Type 0 where
  pub orchestrator_address : Text
  pub max_transfer_wei : ℕ
  pub delivery_margin_sec : ℕ
  pub arbitrum_gas_buffer_wei : ℕ
  pub solana_payout_retry_interval_ms : ℕ
  pub post_collateral_verify_attempts : ℕ
  pub post_collateral_verify_delay_ms : ℕ
  pub confirm_retry_backoff_ms : List ℕ
  pub confirm_retry_max_sec_after_expiry : ℕ

-- `onSigned`: what the process writes between the signature and the broadcast.
abbrev pub OnSigned : Type 0 → Type 0
OnSigned W = Text → World W → World W

-- ArbitrumSettlementDeps, as far as its callers give it differently. A payout is run by another
-- module and cannot touch the Arbitrum ledger.
pub record Deps (W : Type 0) : Type 0 where
  pub solver_address : Text
  pub post_collateral : Text → ℕ → OnSigned W → Exec W TxOutcome
  pub run_solana_payout : Text → Side W → Reply SolanaPayoutResult × Side W
  pub routing : Option RoutingDecision

abbrev pub intent_of : Transaction → Text
intent_of (post_collateral id value) = id
intent_of (confirm_settlement id hash) = id
intent_of (slash_solver id) = id

abbrev mined : Text → Receipt → TxOutcome
mined hash success = record { ok = true; tx_hash = some hash; error = none }
mined hash reverted = record { ok = false; tx_hash = some hash; error = some (text "reverted") }

-- A call of the outside whose answer stands in the trace.
unfoldable pub observe : {W A : Type 0} → (W → Reply A × W) → (A → Event) → Exec W A
observe call event = do answer ← outward call; modify (record_event (event answer)); pure answer

module _ {W : Type 0} (out : Outside W) where
  unfoldable pub note_broadcast : Transaction → Text → World W → World W
  note_broadcast tx hash w =
      record_event
        (broadcast tx hash (get_arbitrum_ledger_entry (intent_of tx) w.ledger)
          (get_ledger_entry (intent_of tx) w.settled))
        w

  unfoldable pub sign_and_send : Text → Transaction → OnSigned W → Exec W TxOutcome
  unfolding note_broadcast
  sign_and_send from tx on_signed =
      catch
        (do
          hash ← outward (out.sign from tx)
          modify (on_signed hash)
          modify (note_broadcast tx hash)
          receipt ← outward (out.send_and_wait hash)
          pure (mined hash receipt))
        (λ e. pure (record { ok = false; tx_hash = none; error = some e }))

  unfoldable pub read_intent : Text → Exec W OnChainIntent
  read_intent id = observe (out.read_intent id) (saw id)

  unfoldable pub check_solana_signature_landed : Text → Exec W Bool
  check_solana_signature_landed sig = observe (out.signature_landed sig) (checked sig)

  -- deps.runSolanaPayout, called for an intent.
  unfoldable pub run_solana_payout : Deps W → Text → Text → Exec W SolanaPayoutResult
  run_solana_payout deps id zk_proof_hash w =
      let (r, s) = deps.run_solana_payout zk_proof_hash w.side in
      (r, record w { trace = payout id deps.solver_address zk_proof_hash ∷ w.trace; side = s })

  -- readProofJson
  abbrev proof_of : ProofFile → Option Text → Option ProofOutputJson
  proof_of none bin = none
  proof_of (some parsed) none = none
  proof_of (some none) (some bin) = none
  proof_of (some (some json)) (some bin) =
      if text_eq json.mode (text "prove") then some json else none

  unfoldable pub read_proof_json : Text → World W → Option ProofOutputJson
  read_proof_json intent_id_hex w =
      proof_of (out.proof_json intent_id_hex w.outside) (out.proof_bin intent_id_hex w.outside)

  abbrev pub or_missing : Option Text → Exec W Text
  or_missing none = throw (text "ENOENT: no such file or directory")
  or_missing (some digest) = pure digest

  unfoldable pub compute_zk_proof_hash : Text → Exec W Text
  compute_zk_proof_hash intent_id_hex w = or_missing (out.proof_bin intent_id_hex w.outside) w

module _ {W : Type 0} (out : Outside W) (cfg : Config) where
  unfoldable pub send_post_collateral : Text → Text → ℕ → OnSigned W → Exec W TxOutcome
  send_post_collateral solver id value on_signed =
      sign_and_send out solver (post_collateral id value) on_signed

  unfoldable pub send_confirm_settlement : Text → Text → OnSigned W → Exec W TxOutcome
  send_confirm_settlement id zk_proof_hash on_signed =
      sign_and_send out cfg.orchestrator_address (confirm_settlement id zk_proof_hash) on_signed

  unfoldable pub send_slash_solver : Text → OnSigned W → Exec W TxOutcome
  send_slash_solver id on_signed =
      sign_and_send out cfg.orchestrator_address (slash_solver id) on_signed

  -- The deps of one configured solver, with a payout for one intent.
  unfoldable pub build_real_deps :
      Text → (Text → Side W → Reply SolanaPayoutResult × Side W) → Deps W
  build_real_deps solver pay = record {
    solver_address = solver;
    post_collateral = send_post_collateral solver;
    run_solana_payout = pay;
    routing = none;
  }

  -- solver still the zero address, and status still Pending
  unfoldable pub looks_unposted : OnChainIntent → Bool
  looks_unposted o = is_zero_address o.solver && (o.status == intent_status_pending)

  -- The retries of readIntentAfterPostCollateral, by the number that is left.
  unfoldable pub reread : ℕ → Text → OnChainIntent → Exec W OnChainIntent
  reread zero id on_chain = pure on_chain
  reread (suc n) id on_chain =
      if looks_unposted on_chain
      then (do
        sleep out cfg.post_collateral_verify_delay_ms
        again ← read_intent out id
        reread n id again)
      else pure on_chain

  unfoldable pub read_intent_after_post_collateral : Text → Exec W OnChainIntent
  read_intent_after_post_collateral id = do
    on_chain ← read_intent out id
    reread (cfg.post_collateral_verify_attempts - 1) id on_chain
