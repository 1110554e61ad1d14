-- ===== src/IntentState.antt =====
-- orchestrator/src/intent_state.ts: the record of each intent that the dashboard reads, one JSON
-- file for each. The directory is a map from the file's name, less its suffix, to what the file
-- holds; a write is atomic, so no other file of the directory ends in .json. A timestamp is a
-- number of milliseconds, given as an argument.
pub mod Setters
pub mod Calls
pub mod WellNamed
pub mod Stages
use ma_at.Prelude.{
  ℕ, Bool, true, false, ◌&&◌, Option, none, some, List, [], ◌∷◌, if◌then◌else◌, leb, Text, text,
  text_eq, key_of, or_else,
}
use ma_at.Prelude.Dict
use ma_at.Prelude.Dict.{Dict}

pub data ProofStatus : Type 0 where
  queued proving verified rejected alert : ProofStatus
  retrying : ℕ → ℕ → ProofStatus  -- the attempt about to run, and the most attempts
  skipped : Text → ProofStatus  -- the chain with no prover support

pub data SettlementStatus : Type 0 where
  none_yet : SettlementStatus
  settling settled unconfirmed_needs_review : Text → SettlementStatus  -- the Solana signature

pub data ArbitrumSettlementStage : Type 0 where
  none_yet : ArbitrumSettlementStage
  posting_collateral collateral_posted collateral_failed : ArbitrumSettlementStage
  confirming confirmed awaiting_expiry_slash slashing slashed : ArbitrumSettlementStage

pub record ArbitrumSettlementStatus : Type 0 where
  pub stage : ArbitrumSettlementStage
  pub collateral_tx_hash : Option Text
  pub confirm_tx_hash : Option Text
  pub slash_tx_hash : Option Text
  pub reason : Option Text

pub record SolverRoutingStatus : Type 0 where
  pub solver : Option Text
  pub tier : Option ℕ
  pub reason : Text

pub data FinalityStatus : Type 0 where
  pending final : FinalityStatus

pub record IntentStateTimestamps : Type 0 where
  pub queued_at : Option ℕ
  pub proving_started_at : Option ℕ
  pub verified_at : Option ℕ
  pub settling_at : Option ℕ
  pub settled_at : Option ℕ
  pub final_at : Option ℕ

-- The part of a state that describes the intent itself (IntentCreatedFields).
pub record IntentCreatedFields : Type 0 where
  pub intent_id : Text
  pub source_chain : Text
  pub source_tx_hash : Text
  pub block_number : Option ℕ
  pub block_hash : Option Text
  pub amount_wei : Text
  pub token_address : Text
  pub destination_chain_id : Text
  pub destination_wallet : Text

pub record IntentState : Type 0 where
  pub fields : IntentCreatedFields
  pub open fields use *
  pub vkey : Option Text
  pub proof_status : ProofStatus
  pub reject_reason : Option Text
  pub alert_reason : Option Text
  pub settlement : SettlementStatus
  pub arbitrum_settlement : ArbitrumSettlementStatus
  pub solver_routing : Option SolverRoutingStatus
  pub finality : FinalityStatus
  pub timestamps : IntentStateTimestamps
  pub updated_at : ℕ

-- What a file of the directory holds.
pub data StateFile : Type 0 where
  state : IntentState → StateFile
  unreadable : StateFile

abbrev pub StateDir : Type 0
StateDir = Dict StateFile

abbrev pub parse : Option StateFile → Option IntentState
parse none = none
parse (some unreadable) = none
parse (some (state s)) = some s

unfoldable pub read_state : Text → StateDir → Option IntentState
read_state intent_id dir = parse (Dict.get (key_of intent_id) dir)

-- The file's name comes from the state, not from the caller.
unfoldable pub write_state_file : IntentState → StateDir → StateDir
write_state_file s dir = Dict.set (key_of s.intent_id) (state s) dir

abbrev pub no_timestamps : IntentStateTimestamps
no_timestamps = record {
  queued_at = none;
  proving_started_at = none;
  verified_at = none;
  settling_at = none;
  settled_at = none;
  final_at = none;
}

abbrev pub no_settlement : ArbitrumSettlementStatus
no_settlement = record {
  stage = ArbitrumSettlementStage.none_yet;
  collateral_tx_hash = none;
  confirm_tx_hash = none;
  slash_tx_hash = none;
  reason = none;
}

unfoldable pub blank_state : Text → ℕ → IntentState
blank_state intent_id now = record {
  fields = record {
    intent_id = intent_id;
    source_chain = text "unknown";
    source_tx_hash = text "unknown";
    block_number = none;
    block_hash = none;
    amount_wei = text "0";
    token_address = text "unknown";
    destination_chain_id = text "unknown";
    destination_wallet = text "unknown";
  };
  vkey = none;
  proof_status = queued;
  reject_reason = none;
  alert_reason = none;
  settlement = SettlementStatus.none_yet;
  arbitrum_settlement = no_settlement;
  solver_routing = none;
  finality = pending;
  timestamps = no_timestamps;
  updated_at = now;
}

unfoldable pub upsert : Text → (IntentState → IntentState) → ℕ → StateDir → StateDir
upsert intent_id patch now dir =
    let prev = or_else (read_state intent_id dir) (blank_state intent_id now) in
    let next = patch prev in write_state_file (record next { updated_at = now }) dir

unfoldable pub is_block_final : ℕ → ℕ → Bool
is_block_final block_number finalized_block_number = leb block_number finalized_block_number

abbrev is_pending : FinalityStatus → Bool
is_pending pending = true
is_pending final = false

abbrev is_some : Option ℕ → Bool
is_some none = false
is_some (some n) = true

unfoldable pub awaits_finality : Text → IntentState → Bool
awaits_finality source_chain s =
    text_eq s.source_chain source_chain && is_pending s.finality && is_some s.block_number

unfoldable pub list_pending_finality : Text → StateDir → List IntentState
unfolding awaits_finality
list_pending_finality source_chain [] = []
list_pending_finality source_chain ((name, unreadable) ∷ dir) =
    list_pending_finality source_chain dir
list_pending_finality source_chain ((name, state s) ∷ dir) =
    let rest = list_pending_finality source_chain dir in
    if awaits_finality source_chain s then s ∷ rest else rest

unfoldable pub list_all_states : StateDir → List IntentState
list_all_states [] = []
list_all_states ((name, unreadable) ∷ dir) = list_all_states dir
list_all_states ((name, state s) ∷ dir) = s ∷ list_all_states dir
