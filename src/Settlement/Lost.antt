-- ===== src/Settlement/Lost.antt =====
-- What becomes of a postCollateral whose broadcast or receipt throws in signAndSend.
use ma_at.Prelude.{ℕ, ◌≡◌, refl, ap, true, false, Option, none, some, Text, head?}
use ma_at.ProofOutput.{ProofOutputJson}
use ma_at.Gate.{gate_ok, required_collateral}
use ma_at.ArbitrumLedger.{ArbitrumLedgerEntry, ArbitrumStage, get_arbitrum_ledger_entry, merge}
use ma_at.ArbitrumLedger.Laws.{get_entry-set_stage_self}
use ma_at.Settlement.World.{
  Reply, ok, threw, Outside, Side, Transaction, post_collateral, TxOutcome, SolanaPayoutResult,
  World, pure, catch, ◌>>=◌, modify, move, outward,
}
use ma_at.Settlement.Chain.{
  Config, OnSigned, build_real_deps, send_post_collateral, sign_and_send, note_broadcast,
}
use ma_at.Settlement.Notes.{mirror_display, mirror_routing, report}
use ma_at.Settlement.Sequence.{
  is_under_way, posting_signed, post_failed, after_post, failed_checks, gate_and_post,
  run_arbitrum_settlement_sequence,
}
use ma_at.Settlement.Trace.{sent}

abbrev failure : Text → TxOutcome
failure e = record { ok = false; tx_hash = none; error = some e }

module _ {W : Type 0} (out : Outside W) where
  -- The outcome has no hash, though the transaction was signed and its broadcast begun.
  sign_and_send-threw :
      (from : Text) (tx : Transaction) (on_signed : OnSigned W) (w : World W) (hash e : Text)
      (o o' : W)
      → out.sign from tx w.outside ≡ (ok hash, o)
      → out.send_and_wait hash (on_signed hash (move o w)).outside ≡ (threw e, o')
      → sign_and_send out from tx on_signed w
        ≡ (ok (failure e), move o' (note_broadcast out tx hash (on_signed hash (move o w))))
  unfolding sign_and_send catch ◌>>=◌ modify outward pure note_broadcast
  sign_and_send-threw from tx on_signed w hash e o o' signed thrown = rw (signed, thrown) refl

-- An entry from which the sequence starts again, and which names no transaction.
abbrev pub Forgotten : Option ArbitrumLedgerEntry → Type 0
Forgotten none = ⊥
Forgotten (some e) = (e.stage ≡ ArbitrumStage.collateral_failed) × (e.collateral_tx_hash ≡ none)

module _ {W : Type 0} (out : Outside W) (cfg : Config) (solver : Text)
    (pay : Text → Side W → Reply SolanaPayoutResult × Side W) where
  -- The world once the collateral is signed and its hash on record.
  abbrev pub on_record : Text → ProofOutputJson → Text → W → World W → World W
  on_record id json hash o w =
      posting_signed out cfg (build_real_deps out cfg solver pay) id json hash (move o w)

  after_threw-Forgotten :
      (fuel : ℕ) (id : Text) (json : ProofOutputJson) (e : Text) (w : World W)
      → Forgotten (
          get_arbitrum_ledger_entry id
            (after_post out cfg
              (build_real_deps out cfg solver pay)
              fuel
              id
              json
              (failure e)
              w).1.ledger)
        × ((after_post out cfg
              (build_real_deps out cfg solver pay)
              fuel
              id
              json
              (failure e)
              w).1.trace
            ≡ w.trace)
  unfolding after_post post_failed modify mirror_display mirror_routing report build_real_deps merge
  after_threw-Forgotten fuel id json e w =
      (rw (get_entry-set_stage_self id _ _ _ _) (refl, refl), refl)

  -- The run comes to what follows a failed posting.
  run-eq :
      (fuel : ℕ) (id : Text) (json : ProofOutputJson) (w : World W) (balance : ℕ) (hash e : Text)
      (o₁ o₂ o₃ : W)
      → is_under_way (get_arbitrum_ledger_entry id w.ledger) ≡ false
      → out.get_balance solver w.outside ≡ (ok balance, o₁)
      → gate_ok
          (failed_checks out cfg (build_real_deps out cfg solver pay) json balance (move o₁ w))
        ≡ true
      → out.sign solver (post_collateral id (required_collateral json.amount)) o₁ ≡ (ok hash, o₂)
      → out.send_and_wait hash o₂ ≡ (threw e, o₃)
      → run_arbitrum_settlement_sequence out cfg (build_real_deps out cfg solver pay) fuel id json w
        ≡ after_post out cfg (build_real_deps out cfg solver pay) fuel id json (failure e) (
            move o₃ (
              note_broadcast out
                (post_collateral id (required_collateral json.amount))
                hash
                (on_record id json hash o₂ (move o₁ w))))
  unfolding run_arbitrum_settlement_sequence gate_and_post build_real_deps send_post_collateral
      ◌>>=◌ outward posting_signed mirror_routing mirror_display
  run-eq fuel id json w balance hash e o₁ o₂ o₃ idle read passes signed thrown =
      rw
        (
          idle,
          read,
          passes,
          sign_and_send-threw out solver (post_collateral id (required_collateral json.amount))
              (posting_signed out cfg (build_real_deps out cfg solver pay) id json) (move o₁ w) hash
              e o₂ o₃ signed thrown,
        )
        refl

  -- If a balance is read, the gate passes, the collateral is signed, and then the broadcast or the wait
  -- for the receipt throws, the sequence leaves the intent at collateral_failed without a hash, from
  -- where it starts again, although the last thing done to the outside is the broadcast.
  pub lost_posting-Forgotten :
      (fuel : ℕ) (id : Text) (json : ProofOutputJson) (w : World W) (balance : ℕ) (hash e : Text)
      (o₁ o₂ o₃ : W)
      → is_under_way (get_arbitrum_ledger_entry id w.ledger) ≡ false
      → out.get_balance solver w.outside ≡ (ok balance, o₁)
      → gate_ok
          (failed_checks out cfg (build_real_deps out cfg solver pay) json balance (move o₁ w))
        ≡ true
      → out.sign solver (post_collateral id (required_collateral json.amount)) o₁ ≡ (ok hash, o₂)
      → out.send_and_wait hash o₂ ≡ (threw e, o₃)
      → Forgotten (
          get_arbitrum_ledger_entry id
            (run_arbitrum_settlement_sequence out cfg
              (build_real_deps out cfg solver pay)
              fuel
              id
              json
              w).1.ledger)
        × (head?
              (run_arbitrum_settlement_sequence out cfg
                (build_real_deps out cfg solver pay)
                fuel
                id
                json
                w).1.trace
            ≡ some (
                sent
                  (post_collateral id (required_collateral json.amount))
                  hash
                  (on_record id json hash o₂ (move o₁ w))))
  unfolding note_broadcast
  lost_posting-Forgotten fuel id json w balance hash e o₁ o₂ o₃ idle read passes signed thrown =
      rw (run-eq fuel id json w balance hash e o₁ o₂ o₃ idle read passes signed thrown) (
        let (forgotten, quiet) = after_threw-Forgotten fuel id json e (
          move o₃ (
            note_broadcast out (post_collateral id (required_collateral json.amount)) hash
              (on_record id json hash o₂ (move o₁ w)))) in
        (forgotten, ap head? quiet))
