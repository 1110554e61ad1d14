-- ===== src/Settlement/Resume.antt =====
-- resumeCollateralPostedIntent of orchestrator/src/arbitrum_settlement.ts: an intent whose collateral
-- is posted goes on where it stopped, and whatever goes wrong is an alert for this intent alone.
use ma_at.Prelude.{
  ℕ, Bool, true, false, Option, none, some, ◌++◌, if◌then◌else◌, Text, text, key_of, with_0x,
  or_else,
}
use ma_at.ProofOutput.{ProofOutputJson}
use ma_at.ArbitrumLedger.{ArbitrumLedgerEntry, get_arbitrum_ledger_entry, is_collateral_posted}
use ma_at.SettledLedger.{is_already_settled}
use ma_at.Settlement.World.{
  Reply, Outside, Side, SolanaPayoutResult, Exec, pure, catch, ◌>>=◌, modify,
}
use ma_at.Settlement.Chain.{Config, Deps, read_proof_json, compute_zk_proof_hash}
use ma_at.Settlement.Notes.{report}
use ma_at.Settlement.Confirm.{confirm_settlement_with_retry}
use ma_at.Settlement.Sequence.{resume_from_collateral_posted}

-- buildRunSolanaPayout: the real payout of one intent, if the caller has one.
abbrev pub BuildPayout : Type 0 → Type 0
BuildPayout W = Option (Text → ProofOutputJson → Text → Side W → Reply SolanaPayoutResult × Side W)

tx_text : ArbitrumLedgerEntry → Text
tx_text e = text "collateral posted (tx " ++ or_else e.collateral_tx_hash (text "undefined")

pub no_proof_reason : Bool → Text → ArbitrumLedgerEntry → Text
no_proof_reason true key e =
    tx_text e
    ++ (text ") and the Solana payout already succeeded, but proof_"
        ++ (key
            ++ text
                ".json is missing/invalid — cannot resume confirmSettlement automatically, needs manual review"))
no_proof_reason false key e =
    tx_text e
    ++ (text ") but proof_"
        ++ (key
            ++ text
                ".json is missing/invalid — cannot resume the settlement sequence automatically, needs manual review"))

pub no_payout_reason : ArbitrumLedgerEntry → Text
no_payout_reason e =
    tx_text e
    ++ text
        ") but the Solana leg was never started, and this reconciliation pass has no way to run it (no buildRunSolanaPayout provided) — needs manual review"

pub threw_reason : Bool → ArbitrumLedgerEntry → Text → Text
threw_reason true e error =
    tx_text e
    ++ (text
          ") and the Solana payout already succeeded, but resuming confirmSettlement threw unexpectedly ("
        ++ (error ++ text ") — needs manual review; other intents' reconciliation is unaffected"))
threw_reason false e error =
    tx_text e
    ++ (text "), but resuming the settlement sequence threw unexpectedly ("
        ++ (error ++ text ") — needs manual review; other intents' reconciliation is unaffected"))

module _ {W : Type 0} (out : Outside W) (cfg : Config) (deps : Deps W) (build : BuildPayout W) where
  abbrev pub resume_unpaid :
      ℕ → Text → ArbitrumLedgerEntry → ProofOutputJson → BuildPayout W → Exec W Unit
  resume_unpaid fuel id e json none = modify (report out id (no_payout_reason e))
  resume_unpaid fuel id e json (some payout_of) =
      resume_from_collateral_posted out cfg
        (record deps {
          solver_address = or_else e.solver deps.solver_address;
          run_solana_payout = payout_of id json;
        })
        fuel id json

  abbrev pub resume_settled : ℕ → Text → ProofOutputJson → Exec W Unit
  resume_settled fuel id json =
      compute_zk_proof_hash out (key_of id) >>= confirm_settlement_with_retry out cfg fuel id json

  abbrev pub resume_with :
      ℕ → Bool → Text → ArbitrumLedgerEntry → Option ProofOutputJson → Exec W Unit
  resume_with fuel settled id e none =
      modify (report out id (no_proof_reason settled (key_of id) e))
  resume_with fuel true id e (some json) = resume_settled fuel id json
  resume_with fuel false id e (some json) = resume_unpaid fuel id e json build

  -- The body behind its first guard: the ledger has this intent at collateral_posted.
  unfoldable pub resume_posted : ℕ → Text → ArbitrumLedgerEntry → Exec W Unit
  resume_posted fuel id e w =
      let settled = is_already_settled id w.settled in
      catch (λ w'. resume_with fuel settled id e (read_proof_json out (key_of id) w') w')
        (λ error. modify (report out id (threw_reason settled e error))) w

  abbrev pub resume_found : ℕ → Text → Option ArbitrumLedgerEntry → Exec W Unit
  resume_found fuel id none = pure tt
  resume_found fuel id (some e) =
      if is_collateral_posted e.stage then resume_posted fuel id e else pure tt

  unfoldable pub resume_collateral_posted_intent : ℕ → Text → Exec W Unit
  resume_collateral_posted_intent fuel intent_id w =
      let id = with_0x (key_of intent_id) in
      resume_found fuel id (get_arbitrum_ledger_entry (key_of intent_id) w.ledger) w
