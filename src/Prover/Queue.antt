-- ===== src/Prover/Queue.antt =====
-- ProverQueue of orchestrator/src/prover_pipeline.ts: one job at a time, in the order of arrival. A job is
-- called when it starts, and its end is an event.
pub mod Fifo
use ma_at.Prelude.{ℕ, zero, suc, ◌+◌, Bool, true, false, List, [], ◌∷◌, ◌++◌, if◌then◌else◌}

-- The queue, with the jobs called so far, in order, and how many of them have ended.
pub record ProverQueue (J : Type 0) : Type 0 where
  pub queue : List J
  pub running : Bool
  pub started : List J
  pub ended : ℕ

pub data QueueEvent (J : Type 0) : Type 0 where
  arrives : J → QueueEvent J
  ends : QueueEvent J

module _ {J : Type 0} where
  abbrev pub new_queue : ProverQueue J
  new_queue = record { queue = []; running = false; started = []; ended = 0 }

  abbrev shift : List J → ProverQueue J → ProverQueue J
  shift [] q = q
  shift (next ∷ rest) q = record q {
    queue = rest;
    running = true;
    started = q.started ++ (next ∷ []);
  }

  unfoldable pub pump : ProverQueue J → ProverQueue J
  pump q = if q.running then q else shift q.queue q

  unfoldable pub enqueue : J → ProverQueue J → ProverQueue J
  unfolding pump
  enqueue job q = pump (record q { queue = q.queue ++ (job ∷ []) })

  -- `finally` of the job that runs; nothing ends where none does.
  unfoldable pub job_ended : ProverQueue J → ProverQueue J
  unfolding pump
  job_ended q = if q.running then pump (record q { running = false; ended = q.ended + 1 }) else q

  unfoldable pub handle : QueueEvent J → ProverQueue J → ProverQueue J
  unfolding enqueue job_ended
  handle (arrives job) q = enqueue job q
  handle ends q = job_ended q

  unfoldable pub run_events : List (QueueEvent J) → ProverQueue J → ProverQueue J
  unfolding handle
  run_events [] q = q
  run_events (e ∷ es) q = run_events es (handle e q)
