-- ===== src/Listener/Events.antt =====
-- What orchestrator/src/listener.ts does with an IntentCreated event, and its finality poller. The
-- handlers of the two other events only print. Console lines are left out.
use ma_at.Prelude.{
  ℕ, ◌*◌, Bool, false, Option, none, some, List, [], ◌∷◌, if◌then◌else◌, ltb, Text, text, text_eq,
  show_ℕ, or_else,
}
use ma_at.IntentState.{
  IntentState, IntentCreatedFields, ProofStatus, queued, skipped, alert, list_pending_finality,
  is_block_final,
}
use ma_at.IntentState.Setters.{record_intent_created, record_alert_reason, set_final}
use ma_at.Settlement.World.{Reply, ok, threw, unfinished, Outside, World, move}
use ma_at.Settlement.Notes.{write_state}
use ma_at.Prover.Queue.{ProverQueue, enqueue}
use ma_at.Destination.{decode_destination_wallet}
use ma_at.Listener.Verify.{Setup}

-- A log of a watcher, with the event's arguments.
pub record IntentCreatedLog : Type 0 where
  pub intent_id : Text
  pub amount : ℕ
  pub token_address : Text
  pub destination_wallet : Text
  pub destination_chain_id : ℕ
  pub expiry : ℕ
  pub transaction_hash : Option Text
  pub block_number : Option ℕ
  pub block_hash : Option Text

-- What a job of the queue is called with.
pub record Job : Type 0 where
  pub tx_hash : Text
  pub intent_id : Text

abbrev pub arbitrum_sepolia : Text
arbitrum_sepolia = text "Arbitrum Sepolia"

-- `toISOString` throws on a time of more than 8.64e15 milliseconds.
unfoldable pub expiry_is_date : ℕ → Bool
expiry_is_date expiry = ltb (expiry * 1000) 8640000000000001

unfoldable pub no_hash_reason : Text
no_hash_reason = text "IntentCreated log has no transactionHash — cannot prove"

module _ {W : Type 0} (out : Outside W) (setup : Setup W) where
  unfoldable pub state_fields : IntentCreatedLog → Text → IntentCreatedFields
  state_fields log chain_label = record {
    intent_id = log.intent_id;
    source_chain = chain_label;
    source_tx_hash = or_else log.transaction_hash (text "unknown");
    block_number = log.block_number;
    block_hash = log.block_hash;
    amount_wei = show_ℕ log.amount;
    token_address = log.token_address;
    destination_chain_id = show_ℕ log.destination_chain_id;
    destination_wallet =
        decode_destination_wallet setup.sha256 setup.solana_base58 log.destination_wallet
          log.destination_chain_id;
  }

  abbrev pub record_new : IntentCreatedLog → Text → ProofStatus → World W → World W
  record_new log chain_label status =
      write_state out (record_intent_created (state_fields log chain_label) status)

  -- `if (!log.transactionHash)`, where a hash is never the empty text.
  abbrev pub with_hash :
      IntentCreatedLog → Text → Option Text → World W × ProverQueue Job → World W × ProverQueue Job
  with_hash log chain_label none (w, q) = (
    write_state out (record_alert_reason log.intent_id no_hash_reason)
        (record_new log chain_label alert w),
    q,
  )
  with_hash log chain_label (some hash) (w, q) = (
    record_new log chain_label queued w,
    enqueue (record { tx_hash = hash; intent_id = log.intent_id }) q,
  )

  -- With the job's place in the queue; what throws is printed, and nothing is done.
  unfoldable pub log_intent_created :
      IntentCreatedLog → Text → World W × ProverQueue Job → World W × ProverQueue Job
  log_intent_created log chain_label (w, q) =
      if expiry_is_date log.expiry
      then (if text_eq chain_label arbitrum_sepolia
          then with_hash log chain_label log.transaction_hash (w, q)
          else (record_new log chain_label (skipped chain_label) w, q))
      else (w, q)

-- `state.blockNumber != null && isBlockFinal(...)`
unfoldable pub is_due : ℕ → IntentState → Bool
is_due finalized s = elim s.block_number [ none ↦ false | some n ↦ is_block_final n finalized ]

module _ {W : Type 0} (out : Outside W) where
  -- The loop over the states that the directory had at its start.
  unfoldable pub mark_final : ℕ → List IntentState → World W → World W
  unfolding is_due
  mark_final finalized [] w = w
  mark_final finalized (s ∷ ss) w =
      mark_final finalized ss
        (if is_due finalized s then write_state out (set_final s.intent_id) w else w)

  abbrev pub after_finalized : Reply (Option ℕ) → World W → World W
  after_finalized (ok none) w = w
  after_finalized (ok (some n)) w = mark_final n (list_pending_finality arbitrum_sepolia w.states) w
  after_finalized (threw e) w = w
  after_finalized unfinished w = w

  -- With the read of the finalized block.
  unfoldable pub poll_finality : (W → Reply (Option ℕ) × W) → World W → World W
  unfolding mark_final
  poll_finality get_finalized w =
      let (reply, o) = get_finalized w.outside in after_finalized reply (move o w)
