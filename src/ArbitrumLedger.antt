-- ===== src/ArbitrumLedger.antt =====
-- orchestrator/src/arbitrum_ledger.ts: the crash-safe ledger of the Arbitrum settlement sequence.
-- The module-level map and its file are the two fields of `Ledger`. A timestamp is a number of
-- milliseconds, given as an argument. The write of the file is taken to succeed.
pub mod Laws
pub mod Views
use ma_at.Prelude.{
  ℕ, Bool, true, false, Option, none, some, List, [], ◌∷◌, if◌then◌else◌, Text, key_of, keep_if,
}
use ma_at.Prelude.Dict
use ma_at.Prelude.Dict.{Dict}

pub data ArbitrumStage : Type 0 where
  posting_collateral collateral_posted collateral_failed : ArbitrumStage
  confirming confirmed awaiting_expiry_slash slashing slashed : ArbitrumStage

-- RoutingDecisionFields: the solver and the tier are null where no candidate was eligible, which is
-- `some none`; `none` is a field that is not there. Wei are kept as numbers.
pub record RoutingDecision : Type 0 where
  pub selected_solver : Option (Option Text)
  pub tier_at_selection : Option (Option ℕ)
  pub routing_reason : Option Text
  pub collateral_wei : Option ℕ

pub record ArbitrumLedgerEntry : Type 0 where
  pub stage : ArbitrumStage
  pub routing : RoutingDecision
  pub collateral_tx_hash : Option Text
  pub confirm_tx_hash : Option Text
  pub slash_tx_hash : Option Text
  pub expiry : Option ℕ
  pub solver : Option Text
  pub updated_at : ℕ

-- A field of a `Partial` that is spread over another object: one that is there replaces the old
-- value, also by undefined.
pub data Given {ℓ} (A : Type ℓ) : Type ℓ where
  absent : Given A
  given : A → Given A

abbrev pub over {ℓ} : {A : Type ℓ} → Given A → A → A
over absent old = old
over (given new) old = new

-- Partial<ArbitrumLedgerEntry>, without the two fields that a write sets itself. A spread routing
-- decision brings the fields that it has.
pub record Patch : Type 0 where
  pub routing : Option RoutingDecision
  pub collateral_tx_hash : Given (Option Text)
  pub confirm_tx_hash : Given (Option Text)
  pub slash_tx_hash : Given (Option Text)
  pub expiry : Given (Option ℕ)
  pub solver : Given (Option Text)

abbrev pub no_patch : Patch
no_patch = record {
  routing = none;
  collateral_tx_hash = absent;
  confirm_tx_hash = absent;
  slash_tx_hash = absent;
  expiry = absent;
  solver = absent;
}

abbrev pub no_routing : RoutingDecision
no_routing = record {
  selected_solver = none;
  tier_at_selection = none;
  routing_reason = none;
  collateral_wei = none;
}

-- A field of a spread object that is not there leaves the old one.
abbrev pub spread {ℓ} : {A : Type ℓ} → Option A → Option A → Option A
spread none old = old
spread (some new) old = some new

unfoldable pub over_routing : Option RoutingDecision → RoutingDecision → RoutingDecision
over_routing none old = old
over_routing (some r) old = record {
  selected_solver = spread r.selected_solver old.selected_solver;
  tier_at_selection = spread r.tier_at_selection old.tier_at_selection;
  routing_reason = spread r.routing_reason old.routing_reason;
  collateral_wei = spread r.collateral_wei old.collateral_wei;
}

abbrev blank_entry : ArbitrumStage → ℕ → ArbitrumLedgerEntry
blank_entry stage now = record {
  stage = stage;
  routing = no_routing;
  collateral_tx_hash = none;
  confirm_tx_hash = none;
  slash_tx_hash = none;
  expiry = none;
  solver = none;
  updated_at = now;
}

-- `{ ...prev, ...patch, stage, updatedAt }`; a missing `prev` has no field.
unfoldable pub merge : Option ArbitrumLedgerEntry → ArbitrumStage → Patch → ℕ → ArbitrumLedgerEntry
unfolding over_routing
merge prev stage patch now =
    let old : ArbitrumLedgerEntry = elim prev [ none ↦ blank_entry stage now | some e ↦ e ] in
    record {
      stage = stage;
      routing = over_routing patch.routing old.routing;
      collateral_tx_hash = over patch.collateral_tx_hash old.collateral_tx_hash;
      confirm_tx_hash = over patch.confirm_tx_hash old.confirm_tx_hash;
      slash_tx_hash = over patch.slash_tx_hash old.slash_tx_hash;
      expiry = over patch.expiry old.expiry;
      solver = over patch.solver old.solver;
      updated_at = now;
    }

pub record Ledger : Type 0 where
  pub entries : Dict ArbitrumLedgerEntry
  pub file : Option (Dict ArbitrumLedgerEntry)  -- none: missing, or not JSON

-- loadLedger, on boot
unfoldable pub load_ledger : Option (Dict ArbitrumLedgerEntry) → Ledger
load_ledger none = record { entries = []; file = none }
load_ledger (some raw) = record { entries = raw; file = some raw }

unfoldable pub persist : Ledger → Ledger
persist l = record l { file = some l.entries }

unfoldable pub get_arbitrum_ledger_entry : Text → Ledger → Option ArbitrumLedgerEntry
get_arbitrum_ledger_entry intent_id l = Dict.get (key_of intent_id) l.entries

unfoldable pub set_arbitrum_stage : Text → ArbitrumStage → Patch → ℕ → Ledger → Ledger
unfolding persist merge
set_arbitrum_stage intent_id stage patch now l =
    let key = key_of intent_id in
    let prev = Dict.get key l.entries in
    persist (record l { entries = Dict.set key (merge prev stage patch now) l.entries })

abbrev pub is_mid_sequence : ArbitrumStage → Bool
is_mid_sequence ArbitrumStage.posting_collateral = true
is_mid_sequence ArbitrumStage.confirming = true
is_mid_sequence ArbitrumStage.slashing = true
is_mid_sequence _ = false

abbrev pub is_posting_collateral : ArbitrumStage → Bool
is_posting_collateral ArbitrumStage.posting_collateral = true
is_posting_collateral _ = false

abbrev pub is_awaiting_expiry_slash : ArbitrumStage → Bool
is_awaiting_expiry_slash ArbitrumStage.awaiting_expiry_slash = true
is_awaiting_expiry_slash _ = false

abbrev pub is_collateral_posted : ArbitrumStage → Bool
is_collateral_posted ArbitrumStage.collateral_posted = true
is_collateral_posted _ = false

-- The loop that the four listings share: the entries whose stage passes a test, in order.
entries_at : (ArbitrumStage → Bool) → Dict ArbitrumLedgerEntry → Dict ArbitrumLedgerEntry
unfolding keep_if
entries_at test = keep_if (λ e. test e.1.stage)

unfoldable pub get_mid_sequence_entries : Ledger → Dict ArbitrumLedgerEntry
unfolding entries_at
get_mid_sequence_entries l = entries_at is_mid_sequence l.entries

unfoldable pub get_posting_collateral_entries : Ledger → Dict ArbitrumLedgerEntry
unfolding entries_at
get_posting_collateral_entries l = entries_at is_posting_collateral l.entries

unfoldable pub get_awaiting_expiry_slash_entries : Ledger → Dict ArbitrumLedgerEntry
unfolding entries_at
get_awaiting_expiry_slash_entries l = entries_at is_awaiting_expiry_slash l.entries

unfoldable pub get_collateral_posted_entries : Ledger → Dict ArbitrumLedgerEntry
unfolding entries_at
get_collateral_posted_entries l = entries_at is_collateral_posted l.entries
