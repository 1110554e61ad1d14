-- ===== src/Tron.antt =====
-- orchestrator/src/tron_listener.ts: the calls of TronGrid with their fallback over the API keys, the cursor
-- that keeps an event from being handled twice, and the record of a new intent. Console lines are
-- left out; the two handlers that only print do nothing here.
pub mod Once
use ma_at.Prelude.{
  ℕ, ◌+◌, Bool, true, false, ◌&&◌, ◌||◌, not, ◌==◌, Option, none, some, List, [], ◌∷◌, ◌++◌,
  if◌then◌else◌, ltb, leb, length, Text, text, text_eq, starts_with, show_ℕ, or_else, is_empty,
}
use ma_at.Prelude.Dict
use ma_at.Prelude.Dict.{Dict}
use ma_at.IntentState.{StateDir, IntentCreatedFields, ProofStatus}
use ma_at.IntentState.Setters.{record_intent_created}
use ma_at.Destination.{Bytes, nibble, drop, base58_check_encode, decode_destination_wallet}

pub data WatchedEvent : Type 0 where
  intent_created collateral_posted intent_settled : WatchedEvent

pub record TronGridEvent : Type 0 where
  pub block_number : ℕ
  pub block_timestamp : ℕ
  pub transaction_id : Text
  pub event_index : ℕ
  pub fields : Dict Text  -- result

-- What an HTTP call gives: it throws, a status that is not ok, or a body.
pub data Answer : Type 0 where
  refused : Text → Answer
  bad_status : ℕ → Text → Answer
  body : Bool → Option (List TronGridEvent) → Answer  -- success, and data

pub data Fetched : Type 0 where
  events : List TronGridEvent → Fetched
  failed : Text → Fetched

abbrev outcome : Answer → Fetched
outcome (refused e) = failed e
outcome (bad_status status status_text) =
    failed (text "HTTP " ++ (show_ℕ status ++ (text ": " ++ status_text)))
outcome (body false d) = failed (text "TronGrid response: success=false")
outcome (body true d) = events (or_else d [])

-- The key, if one is used, the event's name and the time from which on events are asked for.
pub record TronGrid (W : Type 0) : Type 0 where
  pub get : Option Text → WatchedEvent → ℕ → W → Answer × W

module _ {W : Type 0} (grid : TronGrid W) (name : WatchedEvent) (since : ℕ) where
  abbrev or_next : Fetched → (Text → W → Fetched × W) → W → Fetched × W
  or_next (events es) rest o = (events es, o)
  or_next (failed e) rest o = rest e o

  unfoldable pub try_keys : List (Option Text) → Text → W → Fetched × W
  try_keys [] last o = (failed last, o)
  try_keys (key ∷ keys) last o =
      let (answer, o') = grid.get key name since o in or_next (outcome answer) (try_keys keys) o'

  abbrev attempts : List Text → List (Option Text)
  attempts [] = none ∷ []
  attempts (key ∷ []) = some key ∷ []
  attempts (key ∷ key' ∷ keys) = some key ∷ some key' ∷ []

  -- `API_KEYS` has two keys at most.
  unfoldable pub fetch_events : List Text → W → Fetched × W
  unfolding try_keys
  fetch_events api_keys o =
      try_keys (attempts api_keys) (text "failed with no reachable endpoint") o

pub record EventCursor : Type 0 where
  pub since_timestamp_ms : ℕ
  pub seen : List Text

-- `${ev.transaction_id}:${ev.event_index}`
unfoldable pub event_key : TronGridEvent → Text
event_key ev = ev.transaction_id ++ (58 ∷ show_ℕ ev.event_index)

unfoldable pub has : Text → List Text → Bool
has key [] = false
has key (k ∷ ks) = text_eq k key || has key ks

abbrev pub max : ℕ → ℕ → ℕ
max a b = if leb a b then b else a

unfoldable pub note : TronGridEvent → EventCursor → EventCursor
note ev c = record {
  since_timestamp_ms = max c.since_timestamp_ms ev.block_timestamp;
  seen = event_key ev ∷ c.seen;
}

-- The loop over the events: those given to the handler, in order, and the cursor after them.
unfoldable pub handle_new : List TronGridEvent → EventCursor → List TronGridEvent × EventCursor
handle_new [] c = ([], c)
handle_new (ev ∷ evs) c = elim (has (event_key ev) c.seen) [
  | true ↦ handle_new evs c
  | false ↦ (let (handled, c') = handle_new evs (note ev c) in (ev ∷ handled, c'))
]

unfoldable pub bound_memory : EventCursor → EventCursor
bound_memory c = if ltb 5000 (length c.seen) then record c { seen = [] } else c

abbrev pub after_fetch : Fetched → EventCursor → List TronGridEvent × EventCursor
after_fetch (failed e) c = ([], c)
after_fetch (events evs) c = let (handled, c') = handle_new evs c in (handled, bound_memory c')

-- One poll of an event: what is handled, the cursor, and the outside.
unfoldable pub poll_event :
    {W : Type 0}
    → TronGrid W
    → List Text
    → WatchedEvent
    → EventCursor
    → W
    → (List TronGridEvent × EventCursor) × W
unfolding fetch_events handle_new bound_memory note
poll_event grid api_keys name c o =
    let (fetched, o') = fetch_events grid name c.since_timestamp_ms api_keys o in
    (after_fetch fetched c, o')
