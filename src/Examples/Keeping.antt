-- ===== src/Examples/Keeping.antt =====
-- The ledgers' and the state files' theorems at small stores.
use ma_at.Prelude.{
  if◌then◌else◌, ℕ, ◌/◌, ◌<◌, ◌≡◌, ◌≢◌, ◌↔◌, refl, true, false, none, some, List, [], ◌∷◌, arith,
  Text, key_of, strip_0x, addr_key, text_eq, or_else,
}
use ma_at.Prelude.Dict
use ma_at.Prelude.Dict.{pass}
use ma_at.ArbitrumLedger.{
  ArbitrumLedgerEntry, ArbitrumStage, Ledger, Patch, no_patch, given, get_arbitrum_ledger_entry,
  set_arbitrum_stage,
}
use ma_at.ArbitrumLedger.Laws.{restarted, IsPatched, old_entry, restart-set_stage}
use ma_at.SettledLedger.{SettledLedger, settled, is_already_settled, get_ledger_entry}
use ma_at.SettleGate.{expected_vkey, solana_chain_id, evaluate_settle_gate, settle_gate_ok}
use ma_at.SettleGate.Checks.{settle_gate_ok_iff}
use ma_at.SettledLedger.Laws.{Mark, settling_mark, settled_mark, apply_marks, apply_marks-settled}
use ma_at.IntentState.{
  IntentState, StateDir, state, blank_state, read_state, upsert, write_state_file,
}
use ma_at.IntentState.Setters.{set_settling}
use ma_at.IntentState.Calls.{rejected, settling, apply}
use ma_at.IntentState.WellNamed.{WellNamed}
use ma_at.IntentState.Stages.{SameProof, read_state-apply_ne, apply-SameProof}
use ma_at.Examples.Fixture.{intent, solver_one, solver_two, proof, awaiting, ledger_at}

abbrev key : Text
key = 97 ∷ 49 ∷ []

-- The write that precedes a broadcast, which brings the solver and the hash.
abbrev posting : Patch
posting = record no_patch {
  collateral_tx_hash = given (some intent);
  solver = given (some solver_two);
}

restart-set_stage_example :
    ((e : ArbitrumLedgerEntry) × (get_arbitrum_ledger_entry intent (
          restarted (
            set_arbitrum_stage intent ArbitrumStage.posting_collateral posting 7
              (ledger_at ArbitrumStage.collateral_failed)))
        ≡ some e)
      × IsPatched
          (old_entry (get_arbitrum_ledger_entry intent (ledger_at ArbitrumStage.collateral_failed)))
          ArbitrumStage.posting_collateral
          posting
          e)
    × (get_arbitrum_ledger_entry solver_two (
          restarted (
            set_arbitrum_stage intent ArbitrumStage.posting_collateral posting 7
              (ledger_at ArbitrumStage.collateral_failed)))
        ≡ (if text_eq (key_of intent) (key_of solver_two)
            then get_arbitrum_ledger_entry intent (
                restarted (
                  set_arbitrum_stage intent ArbitrumStage.posting_collateral posting 7
                    (ledger_at ArbitrumStage.collateral_failed)))
            else get_arbitrum_ledger_entry solver_two (ledger_at ArbitrumStage.collateral_failed)))
restart-set_stage_example =
    restart-set_stage intent solver_two ArbitrumStage.posting_collateral posting 7
      (ledger_at ArbitrumStage.collateral_failed)

abbrev one_mid : Ledger
one_mid = record {
  entries = (key, record awaiting { stage = ArbitrumStage.confirming }) ∷ [];
  file = none;
}

abbrev paid : SettledLedger
paid = record {
  entries =
      (intent, record { status = settled; solana_sig = some solver_two; updated_at = 0 }) ∷ [];
  file = (intent, record { status = settled; solana_sig = some solver_two; updated_at = 0 }) ∷ [];
}

abbrev marks : List (ℕ × Mark)
marks =
    (1, settling_mark solver_two solver_one)
    ∷ (2, settled_mark solver_two)
    ∷ (3, settled_mark intent)
    ∷ []

other_key : addr_key solver_two ≢ addr_key intent
unfolding addr_key
other_key = ground arith

was_paid : is_already_settled intent paid ≡ true
unfolding is_already_settled get_ledger_entry Dict.get addr_key text_eq
was_paid = refl

apply_marks-settled_example :
    (is_already_settled intent (apply_marks marks paid) ≡ true)
    × ((apply_marks marks paid).file ≡ (apply_marks marks paid).entries)
apply_marks-settled_example = apply_marks-settled intent marks paid (other_key, tt) refl was_paid

abbrev dir : StateDir
dir = (key, state (blank_state intent 0)) ∷ []

dir-WellNamed : WellNamed dir
unfolding blank_state key_of strip_0x
dir-WellNamed = (refl, tt)

other_intent : key_of solver_two ≢ key_of intent
unfolding key_of strip_0x
other_intent = ground arith

read_state-apply_ne_example :
    read_state intent (apply (rejected solver_two intent) 5 dir) ≡ read_state intent dir
read_state-apply_ne_example =
    read_state-apply_ne (rejected solver_two intent) 5 dir intent dir-WellNamed other_intent

-- The state of the intent once its payout is signed.
abbrev signed : IntentState
signed =
    or_else (read_state intent (apply (settling intent solver_one) 5 dir)) (blank_state intent 0)

read_before : read_state intent dir ≡ some (blank_state intent 0)
unfolding read_state Dict.get key_of strip_0x text_eq
read_before = refl

read_signed : read_state intent (apply (settling intent solver_one) 5 dir) ≡ some signed
unfolding read_state Dict.get Dict.set key_of strip_0x text_eq apply set_settling upsert
    write_state_file blank_state
read_signed = refl

apply-SameProof_example : SameProof (blank_state intent 0) signed
apply-SameProof_example =
    apply-SameProof (settling intent solver_one) 5 dir intent (blank_state intent 0) signed
      dir-WellNamed refl read_before read_signed

settle_gate_ok_iff_example :
    (settle_gate_ok (evaluate_settle_gate proof intent intent paid 100000) ≡ true) ↔ (
      (addr_key intent ≡ addr_key intent)
      × (addr_key intent ≡ addr_key intent)
      × (addr_key intent ≡ addr_key expected_vkey)
      × (is_already_settled intent paid ≡ false)
      × (1 ≡ solana_chain_id)
      × (100000 / 1000 < 5000))
settle_gate_ok_iff_example = settle_gate_ok_iff proof intent intent paid 100000
