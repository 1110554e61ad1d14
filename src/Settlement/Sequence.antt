-- ===== src/Settlement/Sequence.antt =====
-- runArbitrumSettlementSequence of orchestrator/src/arbitrum_settlement.ts, with its steps 2 to 4 as
-- resumeArbitrumSettlementFromCollateralPosted. The retries take fuel.
use ma_at.Prelude.{
  ℕ, zero, suc, ◌+◌, Bool, true, false, not, ◌&&◌, ◌||◌, Option, none, some, List, [], ◌∷◌, ◌++◌,
  ◌==◌, leb, if◌then◌else◌, Text, text, text_eq, addr_key, key_of, show_ℕ, or_else,
}
use ma_at.Prelude.Int.{pos}
use ma_at.IntentStatus.{OnChainIntent, intent_status_pending}
use ma_at.ProofOutput.{ProofOutputJson}
use ma_at.Gate.{GateCheck, check_name, evaluate_arbitrum_gate, gate_ok, required_collateral}
use ma_at.ArbitrumLedger.{
  ArbitrumStage, ArbitrumLedgerEntry, Patch, no_patch, given, get_arbitrum_ledger_entry,
}
use ma_at.IntentState.{ArbitrumSettlementStage}
use ma_at.IntentState.Setters.{stage_patch}
use ma_at.Settlement.World.{
  Outside, World, TxOutcome, SolanaPayoutResult, Exec, pure, ◌>>=◌, ◌>>◌, modify, out_of_fuel,
  outward, now_sec, sleep,
}
use ma_at.Settlement.Chain.{
  Config, Deps, read_intent_after_post_collateral, run_solana_payout, compute_zk_proof_hash,
}
use ma_at.Settlement.Notes.{
  set_stage, mirror_display, mirror_routing, report, refuse_arbitrum_settlement,
}
use ma_at.Settlement.Confirm.{confirm_settlement_with_retry}

abbrev pub is_collateral_failed : ArbitrumStage → Bool
is_collateral_failed ArbitrumStage.collateral_failed = true
is_collateral_failed _ = false

-- `existing && existing.stage !== "collateral_failed"`
abbrev pub is_under_way : Option ArbitrumLedgerEntry → Bool
is_under_way none = false
is_under_way (some e) = not (is_collateral_failed e.stage)

-- The chain has this solver's collateral on an intent that is still Pending.
unfoldable pub is_ours : Text → OnChainIntent → Bool
is_ours solver o =
    text_eq (addr_key o.solver) (addr_key solver) && (o.status == intent_status_pending)

stage_name : ArbitrumStage → Text
stage_name ArbitrumStage.posting_collateral = text "posting_collateral"
stage_name ArbitrumStage.collateral_posted = text "collateral_posted"
stage_name ArbitrumStage.collateral_failed = text "collateral_failed"
stage_name ArbitrumStage.confirming = text "confirming"
stage_name ArbitrumStage.confirmed = text "confirmed"
stage_name ArbitrumStage.awaiting_expiry_slash = text "awaiting_expiry_slash"
stage_name ArbitrumStage.slashing = text "slashing"
stage_name ArbitrumStage.slashed = text "slashed"

-- failedChecks.join(", ")
join_checks : List GateCheck → Text
join_checks [] = []
join_checks (c ∷ []) = check_name c
join_checks (c ∷ d ∷ cs) = check_name c ++ (text ", " ++ join_checks (d ∷ cs))

pub under_way_reason : Option ArbitrumLedgerEntry → Text
unfolding stage_name
under_way_reason none = []
under_way_reason (some e) =
    text "Arbitrum settlement already in progress or done (stage: "
    ++ (stage_name e.stage ++ text ") — refusing to restart the sequence")

pub gate_reason : List GateCheck → Text
unfolding join_checks
gate_reason failed =
    text "Arbitrum settle gate REFUSED (failed: "
    ++ (join_checks failed
        ++ text
            ") — not settled; user can reclaim on the source chain via cancelIntent after expiry (no solver collateral) or claimRefund 24h after expiry (solver collateral posted)")

pub check_reason : OnChainIntent → Text
check_reason o =
    text "on-chain check after postCollateral failed (solver="
    ++ (o.solver
        ++ (text ", status=" ++ (show_ℕ o.status ++ text ") — stopping, will NOT pay on Solana")))

pub payout_reason : SolanaPayoutResult → Text
payout_reason r =
    text "Solana payout never succeeded before expiry - DELIVERY_MARGIN_SEC (last error: "
    ++ (or_else r.error (text "unknown") ++ text ") — awaiting expiry to slash the solver")

pub post_reason : TxOutcome → Text
post_reason o = text "postCollateral failed: " ++ or_else o.error (text "unknown")

module _ {W : Type 0} (out : Outside W) (cfg : Config) (deps : Deps W) where
  -- The loop of step 3 stops on a payout, or at expiry less the margin.
  unfoldable pub payout_over : ProofOutputJson → SolanaPayoutResult → World W → Bool
  payout_over json result w = result.ok || leb json.expiry (now_sec out w + cfg.delivery_margin_sec)

  unfoldable pub retry_payout :
      ℕ → Text → ProofOutputJson → Text → SolanaPayoutResult → Exec W SolanaPayoutResult
  retry_payout zero id json zk_proof_hash result w =
      if payout_over json result w then pure result w else out_of_fuel w
  retry_payout (suc fuel) id json zk_proof_hash result w =
      let again =
        sleep out cfg.solana_payout_retry_interval_ms
        >> (run_solana_payout out deps id zk_proof_hash
            >>= retry_payout fuel id json zk_proof_hash) in
      if payout_over json result w then pure result w else again w

  unfoldable pub await_slash : Text → ProofOutputJson → SolanaPayoutResult → World W → World W
  await_slash id json result w =
      let reason = payout_reason result in
      mirror_display out id
        (record (stage_patch ArbitrumSettlementStage.awaiting_expiry_slash) {
          reason = some reason;
        })
        (set_stage out id ArbitrumStage.awaiting_expiry_slash
          (record no_patch { expiry = given (some json.expiry) }) (report out id reason w))

  -- Step 4, or the hand-over to the slash poller.
  unfoldable pub after_payout : ℕ → Text → ProofOutputJson → Text → SolanaPayoutResult → Exec W Unit
  after_payout fuel id json zk_proof_hash result =
      if result.ok
      then confirm_settlement_with_retry out cfg fuel id json zk_proof_hash
      else modify (await_slash id json result)

  -- Steps 3 and 4, behind the on-chain check.
  unfoldable pub pay_and_confirm : ℕ → Text → ProofOutputJson → Exec W Unit
  pay_and_confirm fuel id json = do
    zk_proof_hash ← compute_zk_proof_hash out (key_of id)
    first ← run_solana_payout out deps id zk_proof_hash
    result ← retry_payout fuel id json zk_proof_hash first
    after_payout fuel id json zk_proof_hash result

  unfoldable pub resume_from_collateral_posted : ℕ → Text → ProofOutputJson → Exec W Unit
  resume_from_collateral_posted fuel id json = do
    on_chain ← read_intent_after_post_collateral out cfg id
    if is_ours deps.solver_address on_chain
        then pay_and_confirm fuel id json
        else modify (report out id (check_reason on_chain))

  abbrev pub posting_patch : ProofOutputJson → Text → Patch
  posting_patch json hash = record no_patch {
    collateral_tx_hash = given (some hash);
    expiry = given (some json.expiry);
    solver = given (some deps.solver_address);
    routing = deps.routing;
  }

  -- `onSigned` of postCollateral
  unfoldable pub posting_signed : Text → ProofOutputJson → Text → World W → World W
  posting_signed id json hash w =
      mirror_display out id
        (record (stage_patch ArbitrumSettlementStage.posting_collateral) {
          collateral_tx_hash = given (some hash);
        })
        (mirror_routing out id deps.routing
          (set_stage out id ArbitrumStage.posting_collateral (posting_patch json hash) w))

  unfoldable pub post_failed : Text → ProofOutputJson → TxOutcome → World W → World W
  post_failed id json outcome w =
      let reason = post_reason outcome in
      mirror_display out id
        (record (stage_patch ArbitrumSettlementStage.collateral_failed) {
          collateral_tx_hash = given outcome.tx_hash;
          reason = some reason;
        })
        (mirror_routing out id deps.routing (
          set_stage out id ArbitrumStage.collateral_failed
            (record no_patch {
              routing = deps.routing;
              collateral_tx_hash = given outcome.tx_hash;
              expiry = given (some json.expiry);
            })
            (report out id reason w)))

  unfoldable pub post_landed : Text → ProofOutputJson → TxOutcome → World W → World W
  post_landed id json outcome w =
      mirror_display out id
        (record (stage_patch ArbitrumSettlementStage.collateral_posted) {
          collateral_tx_hash = given outcome.tx_hash;
        })
        (set_stage out id ArbitrumStage.collateral_posted
          (record no_patch {
            collateral_tx_hash = given outcome.tx_hash;
            expiry = given (some json.expiry);
          })
          w)

  unfoldable pub after_post : ℕ → Text → ProofOutputJson → TxOutcome → Exec W Unit
  after_post fuel id json outcome =
      if outcome.ok
      then modify (post_landed id json outcome) >> resume_from_collateral_posted fuel id json
      else modify (post_failed id json outcome)

  -- The gate's verdict on this solver's balance, now.
  unfoldable pub failed_checks : ProofOutputJson → ℕ → World W → List GateCheck
  failed_checks json balance w = evaluate_arbitrum_gate json (record {
    max_transfer_wei = cfg.max_transfer_wei;
    solver_balance_wei = pos balance;
    gas_buffer_wei = cfg.arbitrum_gas_buffer_wei;
    now_sec = now_sec out w;
    delivery_margin_sec = cfg.delivery_margin_sec;
  })

  unfoldable pub gate_and_post : ℕ → Text → ProofOutputJson → ℕ → Exec W Unit
  gate_and_post fuel id json balance w =
      let failed = failed_checks json balance w in
      if gate_ok failed
      then (deps.post_collateral id (required_collateral json.amount) (posting_signed id json)
            >>= after_post fuel id json)
          w
      else modify (refuse_arbitrum_settlement out id json (gate_reason failed) deps.routing) w

  unfoldable pub run_arbitrum_settlement_sequence : ℕ → Text → ProofOutputJson → Exec W Unit
  run_arbitrum_settlement_sequence fuel id json w =
      let existing = get_arbitrum_ledger_entry id w.ledger in
      if is_under_way existing
      then modify (report out id (under_way_reason existing)) w
      else (outward (out.get_balance deps.solver_address) >>= gate_and_post fuel id json) w
