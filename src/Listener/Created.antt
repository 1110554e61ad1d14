-- ===== src/Listener/Created.antt =====
-- What an IntentCreated event leaves in the state directory and in the prover's queue, after
-- orchestrator/src/listener.ts has handled it.
use ma_at.Prelude.{
  ℕ, ◌≡◌, ◌≢◌, refl, branch, true, Option, none, some, Text, text_eq, text_eq_iff, ◌∙◌, arith, text,
  show_ℕ, or_else,
}
use ma_at.IntentState.{
  IntentState, IntentCreatedFields, ProofStatus, queued, skipped, alert, StateDir, read_state,
}
use ma_at.IntentState.Setters.{record_intent_created, record_alert_reason}
use ma_at.IntentState.WellNamed.{WellNamed, before-eq, read_state-upsert_self, upsert-WellNamed}
use ma_at.Settlement.World.{Outside, World, now_ms}
use ma_at.Prover.Queue.{ProverQueue, enqueue}
use ma_at.Destination.{decode_destination_wallet}
use ma_at.Redact.{redact}
use ma_at.Listener.Verify.{Setup}
use ma_at.Listener.Events.{
  IntentCreatedLog, Job, arbitrum_sepolia, expiry_is_date, no_hash_reason, state_fields,
  log_intent_created, record_new, with_hash,
}

-- What becomes of the proof's status and of the queue, one case for each kind of event: a job that is
-- queued, an event without a hash, and an event of another chain.
pub data IsRouted (log : IntentCreatedLog) (chain_label : Text) (q : ProverQueue Job)
    (found : IntentState) (q' : ProverQueue Job) : Type 0 where
  is_queued :
      (hash : Text)
      → chain_label ≡ text "Arbitrum Sepolia"
      → log.transaction_hash ≡ some hash
      → found.proof_status ≡ queued
      → q' ≡ enqueue (record { tx_hash = hash; intent_id = log.intent_id }) q
      → IsRouted log chain_label q found q'
  is_alerted :
      chain_label ≡ text "Arbitrum Sepolia"
      → log.transaction_hash ≡ none
      → found.proof_status ≡ alert
      → found.alert_reason
        ≡ some (redact (text "IntentCreated log has no transactionHash — cannot prove"))
      → q' ≡ q
      → IsRouted log chain_label q found q'
  is_skipped :
      chain_label ≢ text "Arbitrum Sepolia"
      → found.proof_status ≡ skipped chain_label
      → q' ≡ q
      → IsRouted log chain_label q found q'

-- The intent's state is on file with the event's data, and the event went where its kind goes.
pub record IsRecorded (destination : Text) (log : IntentCreatedLog) (chain_label : Text)
    (q : ProverQueue Job) (x : StateDir × ProverQueue Job) : Type 0 where
  pub found : IntentState
  pub on_file : read_state log.intent_id x.0 ≡ some found
  pub described : found.fields ≡ record {
    intent_id = log.intent_id;
    source_chain = chain_label;
    source_tx_hash = or_else log.transaction_hash (text "unknown");
    block_number = log.block_number;
    block_hash = log.block_hash;
    amount_wei = show_ℕ log.amount;
    token_address = log.token_address;
    destination_chain_id = show_ℕ log.destination_chain_id;
    destination_wallet = destination;
  }
  pub routed : IsRouted log chain_label q found x.1

created-read :
    (fields : IntentCreatedFields) (status : ProofStatus) (now : ℕ) (dir : StateDir)
    → WellNamed dir
    → (s : IntentState) × (read_state fields.intent_id (record_intent_created fields status now dir)
        ≡ some s)
      × (s.fields ≡ fields)
      × (s.proof_status ≡ status)
unfolding record_intent_created
created-read fields status now dir h =
    (_, read_state-upsert_self fields.intent_id _ now dir (λ s e. refl) h, refl, refl)

record_intent_created-WellNamed :
    (fields : IntentCreatedFields) (status : ProofStatus) (now : ℕ) (dir : StateDir)
    → WellNamed dir
    → WellNamed (record_intent_created fields status now dir)
unfolding record_intent_created
record_intent_created-WellNamed fields status now dir h =
    upsert-WellNamed fields.intent_id _ now dir h

-- A reason on record leaves the event's data and the proof's status.
reason-read :
    (id reason : Text) (now : ℕ) (dir : StateDir) (old : IntentState)
    → WellNamed dir
    → read_state id dir ≡ some old
    → (s : IntentState) × (read_state id (record_alert_reason id reason now dir) ≡ some s)
      × (s.fields ≡ old.fields)
      × (s.proof_status ≡ old.proof_status)
      × (s.alert_reason ≡ some (redact reason))
unfolding record_alert_reason
reason-read id reason now dir old h e =
    let same = before-eq id id now dir old refl e in
    (_, read_state-upsert_self id _ now dir (λ s d. d) h, rw same refl, rw same refl, refl)

module _ {W : Type 0} (out : Outside W) (setup : Setup W) where
  abbrev destination_of : IntentCreatedLog → Text
  destination_of log =
      decode_destination_wallet setup.sha256 setup.solana_base58 log.destination_wallet
        log.destination_chain_id

  abbrev Made : IntentCreatedLog → Text → ProverQueue Job → World W × ProverQueue Job → Type 0
  Made log chain_label q x = IsRecorded (destination_of log) log chain_label q (x.0.states, x.1)

  skipped-Made :
      (log : IntentCreatedLog) (chain_label : Text) (w : World W) (q : ProverQueue Job)
      → chain_label ≢ arbitrum_sepolia
      → WellNamed w.states
      → Made log chain_label q (record_new out setup log chain_label (skipped chain_label) w, q)
  unfolding state_fields
  skipped-Made log chain_label w q elsewhere h =
      let (s, on_file, described, status) =
        created-read (state_fields out setup log chain_label) (skipped chain_label) (now_ms out w)
          w.states h in
      record {
        found = s;
        on_file = on_file;
        described = described;
        routed = is_skipped elsewhere status refl;
      }

  with_hash-Made :
      (log : IntentCreatedLog) (chain_label : Text) (hash : Option Text) (w : World W)
      (q : ProverQueue Job)
      → log.transaction_hash ≡ hash
      → chain_label ≡ arbitrum_sepolia
      → WellNamed w.states
      → Made log chain_label q (with_hash out setup log chain_label hash (w, q))
  unfolding state_fields no_hash_reason
  with_hash-Made log chain_label (some hash) w q has_hash here h =
      let (s, on_file, described, status) =
        created-read (state_fields out setup log chain_label) queued (now_ms out w) w.states h in
      record {
        found = s;
        on_file = on_file;
        described = described;
        routed = is_queued hash here has_hash status refl;
      }
  with_hash-Made log chain_label none w q has_hash here h =
      let fields = state_fields out setup log chain_label in
      let (old, old_on_file, old_described, old_status) =
        created-read fields alert (now_ms out w) w.states h in
      let (s, on_file, described, status, reason) =
        reason-read log.intent_id no_hash_reason (now_ms out w)
          (record_intent_created fields alert (now_ms out w) w.states) old
          (record_intent_created-WellNamed fields alert (now_ms out w) w.states h) old_on_file in
      record {
        found = s;
        on_file = on_file;
        described = described ∙ old_described;
        routed = is_alerted here has_hash (status ∙ old_status) reason refl;
      }

  -- Once an event whose expiry is a date is handled, its intent's state is on file with the event's
  -- data. If the event comes from Arbitrum Sepolia with a transaction hash, the state says that the
  -- intent is queued, and the job of that hash and intent is added to the queue. If it comes from
  -- there without a hash, the state is an alert with its reason, and if it comes from another chain,
  -- the state says that it is skipped; the queue is then as it was.
  pub log_intent_created-IsRecorded :
      (log : IntentCreatedLog) (chain_label : Text) (w : World W) (q : ProverQueue Job)
      → expiry_is_date log.expiry ≡ true
      → WellNamed w.states
      → IsRecorded
          (decode_destination_wallet setup.sha256 setup.solana_base58 log.destination_wallet
            log.destination_chain_id)
          log
          chain_label
          q
          (
            (log_intent_created out setup log chain_label (w, q)).0.states,
            (log_intent_created out setup log chain_label (w, q)).1,
          )
  unfolding log_intent_created
  log_intent_created-IsRecorded log chain_label w q dated h =
      branch (Made log chain_label q) (expiry_is_date log.expiry) _ _
        (λ e.
          branch (Made log chain_label q) (text_eq chain_label arbitrum_sepolia) _ _
            (λ here.
              with_hash-Made log chain_label log.transaction_hash w q refl
                ((text_eq_iff chain_label arbitrum_sepolia).0 here) h)
            (λ d.
              skipped-Made log chain_label w q
                (λ same. cc ((text_eq_iff chain_label arbitrum_sepolia).1 same, d)) h))
        (λ e. absurd (ground (arith, e, dated)))
