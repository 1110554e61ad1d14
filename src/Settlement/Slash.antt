-- ===== src/Settlement/Slash.antt =====
-- pollAwaitingSlash of orchestrator/src/arbitrum_settlement.ts, with the fresh look at Solana that
-- stands before each slash.
use ma_at.Prelude.{
  ℕ, Bool, true, false, Option, none, some, List, [], ◌∷◌, ◌++◌, ltb, if◌then◌else◌, Text, text,
  with_0x, key_of, or_else,
}
use ma_at.ProofOutput.{ProofOutputJson}
use ma_at.ArbitrumLedger.{
  ArbitrumStage, ArbitrumLedgerEntry, no_patch, given, get_awaiting_expiry_slash_entries,
}
use ma_at.SettledLedger.{
  LedgerEntry, LedgerStatus, settling, settled, get_ledger_entry, mark_settled,
}
use ma_at.IntentState.{ArbitrumSettlementStage}
use ma_at.IntentState.Setters.{stage_patch, set_settled}
use ma_at.Settlement.World.{
  Outside, World, TxOutcome, Exec, pure, ◌>>=◌, ◌>>◌, modify, now_ms, now_sec,
}
use ma_at.Settlement.Chain.{
  Config, check_solana_signature_landed, read_proof_json, compute_zk_proof_hash, send_slash_solver,
}
use ma_at.Settlement.Notes.{set_stage, mirror_display, write_state, report}
use ma_at.Settlement.Confirm.{confirm_settlement_with_retry}

-- `for (const x of xs) { … }`: a throw ends the loop.
unfoldable pub for_each : {W A : Type 0} → (A → Exec W Unit) → List A → Exec W Unit
for_each body [] = pure tt
for_each body (x ∷ xs) = body x >> for_each body xs

abbrev sig_text : LedgerEntry → Text
sig_text e = or_else e.solana_sig (text "unknown")

pub delivered_reason : Text → LedgerEntry → Text
delivered_reason key e =
    text "awaiting_expiry_slash, but the Solana payout (sig "
    ++ (sig_text e
        ++ (text
              ") is confirmed on Solana right now — refusing to slash a solver who delivered — but proof_"
            ++ (key
                ++ text
                    ".json is missing/invalid, so confirmSettlement cannot be resumed automatically either — needs manual review.")))

pub slash_reason : TxOutcome → Text
slash_reason o = text "slashSolver failed: " ++ or_else o.error (text "unknown")

module _ {W : Type 0} (out : Outside W) (cfg : Config) where
  abbrev pub landed_by : LedgerStatus → Option Text → Exec W Bool
  landed_by settled sig = pure true
  landed_by settling none = pure false
  landed_by settling (some sig) = check_solana_signature_landed out sig

  -- `landed`: what the ledger says for certain, or else a fresh look at the signature.
  unfoldable pub has_landed : LedgerEntry → Exec W Bool
  has_landed e = landed_by e.status e.solana_sig

  abbrev pub settle_sig : Text → LedgerStatus → Option Text → World W → World W
  settle_sig id settled sig w = w
  settle_sig id settling none w = w
  settle_sig id settling (some sig) w =
      write_state out (set_settled id sig)
        (record w { side = record w.side { settled = mark_settled id (now_ms out w) w.settled } })

  abbrev pub confirm_found : ℕ → Text → LedgerEntry → Option ProofOutputJson → Exec W Bool
  confirm_found fuel id e none =
      modify (report out id (delivered_reason (key_of id) e)) >> pure true
  confirm_found fuel id e (some json) = do
    zk_proof_hash ← compute_zk_proof_hash out (key_of id)
    confirm_settlement_with_retry out cfg fuel id json zk_proof_hash
    pure true

  abbrev pub after_look : ℕ → Text → LedgerEntry → Bool → Exec W Bool
  after_look fuel id e false = pure false
  after_look fuel id e true = modify (settle_sig id e.status e.solana_sig) >> λ w.
      confirm_found fuel id e (read_proof_json out (key_of id) w) w

  abbrev pub resume_entry : ℕ → Text → Option LedgerEntry → Exec W Bool
  resume_entry fuel id none = pure false
  resume_entry fuel id (some e) = has_landed e >>= after_look fuel id e

  -- True if the slash is averted.
  unfoldable pub resume_confirm_if_solana_landed : ℕ → Text → Exec W Bool
  resume_confirm_if_solana_landed fuel id w = resume_entry fuel id (get_ledger_entry id w.settled) w

  unfoldable pub slashing_signed : Text → Text → World W → World W
  slashing_signed id hash w =
      mirror_display out id
        (record (stage_patch ArbitrumSettlementStage.slashing) {
          slash_tx_hash = given (some hash);
        })
        (set_stage out id ArbitrumStage.slashing
          (record no_patch { slash_tx_hash = given (some hash) }) w)

  slash_failed : Text → TxOutcome → World W → World W
  slash_failed id outcome w =
      mirror_display out id
        (record (stage_patch ArbitrumSettlementStage.slashing) {
          slash_tx_hash = given outcome.tx_hash;
          reason = some (slash_reason outcome);
        })
        (report out id (slash_reason outcome) w)

  slash_done : Text → TxOutcome → World W → World W
  slash_done id outcome w =
      mirror_display out id
        (record (stage_patch ArbitrumSettlementStage.slashed) {
          slash_tx_hash = given outcome.tx_hash;
        })
        (set_stage out id ArbitrumStage.slashed
          (record no_patch { slash_tx_hash = given outcome.tx_hash }) w)

  unfoldable pub after_slash : Text → TxOutcome → World W → World W
  unfolding slash_failed slash_done
  after_slash id outcome w =
      if outcome.ok then slash_done id outcome w else slash_failed id outcome w

  unfoldable pub slash_unless : Text → Bool → Exec W Unit
  slash_unless id averted =
      if averted
      then pure tt
      else send_slash_solver out cfg id (slashing_signed id) >>= λ outcome.
          modify (after_slash id outcome)

  -- `entry.expiry == null || deps.nowSec() < entry.expiry`
  abbrev pub not_due : Option ℕ → ℕ → Bool
  not_due none now = true
  not_due (some expiry) now = ltb now expiry

  unfoldable pub poll_entry : ℕ → Text × ArbitrumLedgerEntry → Exec W Unit
  poll_entry fuel (key, e) w =
      if not_due e.expiry (now_sec out w)
      then (pure tt) w
      else (resume_confirm_if_solana_landed fuel (with_0x key) >>= slash_unless (with_0x key)) w

  unfoldable pub poll_awaiting_slash : ℕ → Exec W Unit
  poll_awaiting_slash fuel w =
      for_each (poll_entry fuel) (get_awaiting_expiry_slash_entries w.ledger) w
