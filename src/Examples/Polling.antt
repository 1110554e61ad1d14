-- ===== src/Examples/Polling.antt =====
-- TronGrid answers the first key with an error, and the second with an event twice.
use ma_at.Prelude.{
  ℕ, ◌+◌, ◌≤◌, ◌≡◌, refl, true, none, some, Option, [], ◌∷◌, if◌then◌else◌, Text, text_eq, show_ℕ,
  arith,
}
use ma_at.Tron.{
  intent_created, TronGridEvent, TronGrid, Answer, refused, body, EventCursor, poll_event,
  fetch_events, try_keys, handle_new, has, event_key, note, bound_memory,
}
use ma_at.Tron.Once.{polls, AllNew, polls-AllNew}

abbrev event : TronGridEvent
event = record {
  block_number = 7;
  block_timestamp = 900;
  transaction_id = 97 ∷ [];
  event_index = 0;
  fields = [];
}

abbrev answer : Option Text → Answer
answer none = refused []
answer (some key) =
    if text_eq key (98 ∷ []) then body true (some (event ∷ event ∷ [])) else refused []

abbrev grid : TronGrid ℕ
grid = record { get = λ key name since o. (answer key, o + 1) }

abbrev cursor : EventCursor
cursor = record { since_timestamp_ms = 500; seen = [] }

handled_once : (polls grid ((99 ∷ []) ∷ (98 ∷ []) ∷ []) intent_created 2 cursor 0).0 ≡ event ∷ []
unfolding polls poll_event fetch_events try_keys handle_new has event_key note bound_memory text_eq
    show_ℕ
handled_once = refl

polls-AllNew_example :
    AllNew cursor.seen (polls grid ((99 ∷ []) ∷ (98 ∷ []) ∷ []) intent_created 2 cursor 0).0
    × (cursor.since_timestamp_ms
        ≤ (polls grid ((99 ∷ []) ∷ (98 ∷ []) ∷ []) intent_created 2 cursor 0).1.since_timestamp_ms)
polls-AllNew_example =
    polls-AllNew grid ((99 ∷ []) ∷ (98 ∷ []) ∷ []) intent_created 2 cursor 0
      (rw handled_once (omega arith))
