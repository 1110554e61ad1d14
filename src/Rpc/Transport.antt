-- ===== src/Rpc/Transport.antt =====
-- createRotatingHttpTransport of orchestrator/src/rpc_rotation.ts: one HTTP attempt, a sweep over the URLs
-- and a request that repeats its sweep.
use ma_at.Prelude.{
  ℕ, zero, suc, ◌+◌, ◌*◌, ◌%◌, ◌^◌, Bool, true, false, Option, none, some, List, [], ◌∷◌, ◌++◌, ltb,
  if◌then◌else◌, length, Text, text, show_ℕ,
}
use ma_at.Prelude.Dict
use ma_at.Prelude.Int.{ℤ, pos, negsuc}
use ma_at.Rpc.{Health, cool_down_until_ms, is_capacity_error, url_at, rotation_order}

-- An Error, with the `code` of a JSON-RPC error.
pub record Failure : Type 0 where
  pub message : Text
  pub code : Option ℤ

pub data Attempt (A : Type 0) : Type 0 where
  result : A → Attempt A
  failed : Failure → Attempt A

-- `body.error`, with the fields that are there with their type.
pub record ErrorField : Type 0 where
  pub code : Option ℤ
  pub message : Option Text

-- The body of a response: no JSON, or an object with an error or a result.
pub data Body (A : Type 0) : Type 0 where
  unreadable : Text → Body A
  object : Option ErrorField → A → Body A

-- What `fetch` does within its timeout: it throws, or answers with a status.
pub data Fetched (A : Type 0) : Type 0 where
  refused : Text → Fetched A
  answered : Bool → ℕ → Body A → Fetched A

abbrev show_ℤ : ℤ → Text
show_ℤ (pos n) = show_ℕ n
show_ℤ (negsuc n) = 45 ∷ show_ℕ (suc n)

abbrev or_undefined : Option Text → Text
or_undefined none = text "undefined"
or_undefined (some t) = t

abbrev code_text : Option ℤ → Text
code_text none = text "undefined"
code_text (some c) = show_ℤ c

unfoldable pub json_rpc_error : Text → ErrorField → Failure
json_rpc_error prefix e = record {
  message =
      prefix ++ (text "RPC error " ++ (code_text e.code ++ (text ": " ++ or_undefined e.message)));
  code = e.code;
}

unfoldable pub http_error : ℕ → Text
http_error status = text "HTTP " ++ (show_ℕ status ++ text " from RPC endpoint")

-- A code and a message of the right types make the error of a non-2xx answer a JSON-RPC error.
abbrev surfaced : ℕ → Option ℤ → Option Text → Failure
surfaced status (some c) (some m) =
    json_rpc_error (http_error status ++ text ": ") (record { code = some c; message = some m })
surfaced status _ _ = record { message = http_error status; code = none }

unfoldable pub bad_status : {A : Type 0} → ℕ → Body A → Failure
unfolding json_rpc_error http_error
bad_status status (unreadable e) = record { message = http_error status; code = none }
bad_status status (object none r) = record { message = http_error status; code = none }
bad_status status (object (some e) r) = surfaced status e.code e.message

unfoldable pub good_status : {A : Type 0} → Body A → Attempt A
unfolding json_rpc_error
good_status (unreadable e) = failed (record { message = e; code = none })
good_status (object none r) = result r
good_status (object (some e) r) = failed (json_rpc_error [] e)

unfoldable pub rpc_post : {A : Type 0} → Fetched A → Attempt A
unfolding bad_status good_status
rpc_post (refused e) = failed (record { message = e; code = none })
rpc_post (answered true status body) = good_status body
rpc_post (answered false status body) = failed (bad_status status body)

-- The health table of the process, the transport's own start index, the lines that it warned, the
-- indices posted to, newest first, and the outside.
pub record Rotation (W : Type 0) : Type 0 where
  pub health : Health
  pub next_start_index : ℕ
  pub warnings : List Text
  pub posted : List ℕ
  pub outside : W

abbrev pub default_sweep_retry_count : ℕ
default_sweep_retry_count = 3

abbrev pub default_sweep_retry_delay_ms : ℕ
default_sweep_retry_delay_ms = 150

-- A transport: its URLs and label, the cooldown, the clock, `fetch` of one request, and the timer.
pub record Transport (W A : Type 0) : Type 0 where
  pub urls : List Text
  pub client_label : Text
  pub cooldown_sec : ℕ
  pub now_ms : W → ℕ
  pub fetch : Text → W → Fetched A × W
  pub sleep : ℕ → W → W

unfoldable pub record_capacity_error : {W : Type 0} → Text → ℕ → ℕ → Text → Rotation W → Rotation W
record_capacity_error url now cooldown_sec label s = record s {
  health = Dict.set url (now + cooldown_sec * 1000) s.health;
  warnings = if ltb now (cool_down_until_ms url s.health) then s.warnings else label ∷ s.warnings;
}

module _ {W A : Type 0} (t : Transport W A) where
  unfoldable pub post : ℕ → Rotation W → Attempt A × Rotation W
  unfolding rpc_post
  post idx s =
      let (answer, o) = t.fetch (url_at t.urls idx) s.outside in
      (rpc_post answer, record s { outside = o; posted = idx ∷ s.posted })

  unfoldable pub note_failure : ℕ → Failure → Rotation W → Rotation W
  unfolding record_capacity_error
  note_failure idx e s =
      if is_capacity_error e.message
      then record_capacity_error (url_at t.urls idx) (t.now_ms s.outside) t.cooldown_sec
          (t.client_label ++ (text " URL_" ++ show_ℕ (idx + 1))) s
      else s

  -- What follows an attempt: the end of the sweep, or the rest of it.
  unfoldable pub after_post :
      ℕ
      → Attempt A
      → (Failure → Rotation W → Attempt A × Rotation W)
      → Rotation W
      → Attempt A × Rotation W
  unfolding note_failure
  after_post idx (result r) rest s =
      (result r, record s { next_start_index = (idx + 1) % length t.urls })
  after_post idx (failed e) rest s = rest e (note_failure idx e s)

  unfoldable pub try_each : List ℕ → Failure → Rotation W → Attempt A × Rotation W
  unfolding post after_post
  try_each [] last s = (failed last, s)
  try_each (idx ∷ order) last s =
      let (answer, s') = post idx s in after_post idx answer (try_each order) s'

  abbrev pub undefined_error : Failure
  undefined_error = record { message = text "undefined"; code = none }

  unfoldable pub attempt_sweep : Rotation W → Attempt A × Rotation W
  unfolding try_each
  attempt_sweep s =
      try_each (rotation_order t.urls s.next_start_index (t.now_ms s.outside) s.health)
        undefined_error s

  abbrev pub backoff : ℕ → Rotation W → Rotation W
  backoff attempt s =
      if ltb attempt default_sweep_retry_count
      then record s { outside = t.sleep (2 ^ attempt * default_sweep_retry_delay_ms) s.outside }
      else s

  unfoldable pub after_sweep :
      ℕ
      → Attempt A
      → (Failure → Rotation W → Attempt A × Rotation W)
      → Rotation W
      → Attempt A × Rotation W
  after_sweep attempt (result r) rest s = (result r, s)
  after_sweep attempt (failed e) rest s = rest e (backoff attempt s)

  -- The sweeps that are left, and the number of the next one.
  unfoldable pub sweeps : ℕ → ℕ → Failure → Rotation W → Attempt A × Rotation W
  unfolding attempt_sweep after_sweep
  sweeps zero attempt last s = (failed last, s)
  sweeps (suc left) attempt last s =
      let (answer, s') = attempt_sweep s in
      after_sweep attempt answer (sweeps left (attempt + 1)) s'

  unfoldable pub request : Rotation W → Attempt A × Rotation W
  unfolding sweeps
  request s = sweeps (default_sweep_retry_count + 1) 0 undefined_error s
