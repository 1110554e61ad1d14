-- ===== src/SettleIntent/Ends.antt =====
-- pollForConfirmation of orchestrator/settle_intent.js always ends, and in time.
use ma_at.Prelude.{ℕ, ◌+◌, ◌*◌, ◌≤◌, ◌<◌, ◌≡◌, some, head?, Text}
use ma_at.SettleIntent.{Outcome, done, threw, exits, unfinished, confirmed, Process, Script}
use ma_at.SettleIntent.Confirm.{Connection}

module _ {W : Type 0} (c : Connection W) (late : ℕ) where
  -- The clock does not go back, a race is decided when its timer fires at the latest, and a timer
  -- fires when it is due, or late by so much at most.
  pub record Timely : Type 0 where
    pub statuses :
        (sig : Text) (ms : ℕ) (o : W)
        → (c.now_ms o ≤ c.now_ms (c.get_signature_status sig ms o).1)
          × (c.now_ms (c.get_signature_status sig ms o).1 ≤ c.now_ms o + ms + late)
    pub heights :
        (ms : ℕ) (o : W)
        → (c.now_ms o ≤ c.now_ms (c.get_block_height ms o).1)
          × (c.now_ms (c.get_block_height ms o).1 ≤ c.now_ms o + ms + late)
    pub sleeps :
        (ms : ℕ) (o : W)
        → (c.now_ms o + ms ≤ c.now_ms (c.sleep ms o))
          × (c.now_ms (c.sleep ms o) ≤ c.now_ms o + ms + late)

  -- It has thrown, or returned on a status that says that the signature is final; by a time.
  abbrev pub Ended : Text → ℕ → Outcome Unit × Process W → Type 0
  Ended sig limit (done a, p) = (c.now_ms p.outside ≤ limit) × (head? p.acts ≡ some (confirmed sig))
  Ended sig limit (threw e, p) = c.now_ms p.outside ≤ limit
  Ended sig limit (exits code, p) = ⊥
  Ended sig limit (unfinished, p) = ⊥

module _ {W : Type 0} (c : Connection W) (late : ℕ) (timely : Timely c late)
    (pos : 0 < c.poll_interval_ms) (sig : Text) (last_valid deadline : ℕ) where
  -- Two calls after the last check of the deadline and the sleep that follows it.
  abbrev last_time : ℕ
  last_time = deadline + c.poll_interval_ms + late + 2 * (c.rpc_timeout_ms + late)

  -- What a round may rely on: a time, and what follows a later one.
  abbrev Again : Script W Unit → ℕ → Type 0
  Again again t =
      (p : Process W)
      → t < deadline
      → t + c.poll_interval_ms ≤ c.now_ms p.outside
      → c.now_ms p.outside ≤ deadline + c.poll_interval_ms + late
      → Ended c late sig last_time (again p)
