-- ===== src/SettledLedger.antt =====
-- The settled-intent ledger of orchestrator/src/prover_pipeline.ts, which decides whether a Solana
-- payout may run. Its keys are lowercased, with their prefix kept. The write of its file is taken
-- to succeed.
pub mod Laws
use ma_at.Prelude.{ℕ, Bool, true, false, Option, none, some, List, [], ◌∷◌, Text, addr_key}
use ma_at.Prelude.Dict
use ma_at.Prelude.Dict.{Dict}

pub data LedgerStatus : Type 0 where
  settling settled : LedgerStatus

pub record LedgerEntry : Type 0 where
  pub status : LedgerStatus
  pub solana_sig : Option Text
  pub updated_at : ℕ

pub record SettledLedger : Type 0 where
  pub entries : Dict LedgerEntry
  pub file : Dict LedgerEntry

-- What the file holds when the process starts: it is missing or no JSON, a list of settled intents in
-- the old format, or the entries by their keys.
pub data LedgerFile : Type 0 where
  unreadable : LedgerFile
  old_format : List Text → LedgerFile
  by_key : Dict LedgerEntry → LedgerFile

load_old : Dict LedgerEntry → List Text → Dict LedgerEntry
load_old ledger [] = ledger
load_old ledger (id ∷ ids) =
    load_old
      (Dict.set (addr_key id) (record { status = settled; solana_sig = none; updated_at = 0 })
        ledger)
      ids

unfoldable pub load_entries : Dict LedgerEntry → Dict LedgerEntry → Dict LedgerEntry
load_entries ledger [] = ledger
load_entries ledger ((id, entry) ∷ raw) = load_entries (Dict.set (addr_key id) entry ledger) raw

-- `loadLedger`
unfoldable pub load_settled_ledger : LedgerFile → Dict LedgerEntry
unfolding load_old load_entries
load_settled_ledger unreadable = []
load_settled_ledger (old_format ids) = load_old [] ids
load_settled_ledger (by_key raw) = load_entries [] raw

persist_ledger : SettledLedger → SettledLedger
persist_ledger l = record l { file = l.entries }

unfoldable pub get_ledger_entry : Text → SettledLedger → Option LedgerEntry
get_ledger_entry intent_id l = Dict.get (addr_key intent_id) l.entries

abbrev pub is_settled : Option LedgerEntry → Bool
is_settled none = false
is_settled (some e) = elim e.status [ settled ↦ true | settling ↦ false ]

unfoldable pub is_already_settled : Text → SettledLedger → Bool
unfolding get_ledger_entry
is_already_settled intent_id l = is_settled (get_ledger_entry intent_id l)

unfoldable pub mark_settling : Text → Text → ℕ → SettledLedger → SettledLedger
unfolding persist_ledger
mark_settling intent_id solana_sig now l = persist_ledger (record l {
  entries =
      Dict.set (addr_key intent_id)
        (record { status = settling; solana_sig = some solana_sig; updated_at = now }) l.entries;
})

abbrev sig_of : Option LedgerEntry → Option Text
sig_of none = none
sig_of (some e) = e.solana_sig

unfoldable pub mark_settled : Text → ℕ → SettledLedger → SettledLedger
unfolding persist_ledger
mark_settled intent_id now l =
    let existing = Dict.get (addr_key intent_id) l.entries in
    persist_ledger (record l {
      entries =
          Dict.set (addr_key intent_id)
            (record { status = settled; solana_sig = sig_of existing; updated_at = now }) l.entries;
    })

-- An entry that is parked between its signature and its confirmation, with its signature.
abbrev settling_sig : LedgerEntry → Option Text
settling_sig e = elim e.status [ settling ↦ e.solana_sig | settled ↦ none ]

abbrev push_sig : Text → Option Text → List (Text × Text) → List (Text × Text)
push_sig id none rest = rest
push_sig id (some sig) rest = (id, sig) ∷ rest

settling_in : Dict LedgerEntry → List (Text × Text)
settling_in [] = []
settling_in ((id, e) ∷ m) = push_sig id (settling_sig e) (settling_in m)

unfoldable pub get_settling_entries : SettledLedger → List (Text × Text)
unfolding settling_in
get_settling_entries l = settling_in l.entries
