-- ===== src/Prover/Queue/Fifo.antt =====
-- ProverQueue of orchestrator/src/prover_pipeline.ts calls the jobs in their order, one at a time, and calls
-- each of them when those before it have ended.
use mathlib.Core.List.{append-nil, append_assoc}
use ma_at.Prelude.{
  ℕ, ◌+◌, ◌≡◌, refl, branch, sym, ap, ◌∙◌, Bool, true, false, List, [], ◌∷◌, ◌++◌, length,
  length-append, is_empty, arith,
}
use ma_at.Prover.Queue.{ProverQueue, new_queue, pump, QueueEvent, arrives, ends, handle, run_events}

abbrev busy : Bool → ℕ
busy true = 1
busy false = 0

module _ {J : Type 0} where
  -- The jobs that arrive, in order.
  unfoldable pub arrivals : List (QueueEvent J) → List J
  arrivals [] = []
  arrivals (arrives job ∷ es) = job ∷ arrivals es
  arrivals (ends ∷ es) = arrivals es

  -- All but one at most of the jobs called have ended, and a job waits only while another runs.
  pub record OneAtATime (q : ProverQueue J) : Type 0 where
    pub calls : length q.started ≡ q.ended + busy q.running
    pub waits : q.running ≡ false → is_empty q.queue ≡ true

  pump-OneAtATime :
      (queue : List J) (running : Bool) (started : List J) (ended : ℕ)
      → length started ≡ ended + busy running
      → OneAtATime
          (pump (record { queue = queue; running = running; started = started; ended = ended }))
  unfolding pump
  pump-OneAtATime queue true started ended h = record { calls = h; waits = λ e. cc }
  pump-OneAtATime [] false started ended h = record { calls = h; waits = λ e. refl }
  pump-OneAtATime (next ∷ rest) false started ended h = record {
    calls = omega (arith, h, length-append started (next ∷ []));
    waits = λ e. cc;
  }

  handle-OneAtATime :
      (e : QueueEvent J) (q : ProverQueue J) → OneAtATime q → OneAtATime (handle e q)
  unfolding handle
  handle-OneAtATime (arrives job) q h =
      pump-OneAtATime (q.queue ++ (job ∷ [])) q.running q.started q.ended h.calls
  handle-OneAtATime ends q h =
      branch OneAtATime q.running _ _
        (λ e.
          pump-OneAtATime q.queue false q.started (q.ended + 1) (omega (arith, h.calls, ap busy e)))
        (λ e. h)

  -- The jobs called and those that wait, in order.
  abbrev all_jobs : ProverQueue J → List J
  all_jobs q = q.started ++ q.queue

  pump-all_jobs :
      (queue : List J) (running : Bool) (started : List J) (ended : ℕ)
      → all_jobs
          (pump (record { queue = queue; running = running; started = started; ended = ended }))
        ≡ (started ++ queue)
  unfolding pump
  pump-all_jobs queue true started ended = refl
  pump-all_jobs [] false started ended = refl
  pump-all_jobs (next ∷ rest) false started ended = append_assoc started (next ∷ []) rest

  handle-all_jobs :
      (e : QueueEvent J) (q : ProverQueue J)
      → all_jobs (handle e q) ≡ (all_jobs q ++ arrivals (e ∷ []))
  unfolding handle arrivals
  handle-all_jobs (arrives job) q =
      pump-all_jobs (q.queue ++ (job ∷ [])) q.running q.started q.ended
      ∙ sym (append_assoc q.started q.queue (job ∷ []))
  handle-all_jobs ends q =
      branch (λ (q' : ProverQueue J). all_jobs q' ≡ (all_jobs q ++ [])) q.running _ _
        (λ e. pump-all_jobs q.queue false q.started (q.ended + 1) ∙ sym (append-nil (all_jobs q)))
        (λ e. sym (append-nil (all_jobs q)))

  arrivals-cons :
      (e : QueueEvent J) (es : List (QueueEvent J))
      → arrivals (e ∷ es) ≡ (arrivals (e ∷ []) ++ arrivals es)
  unfolding arrivals
  arrivals-cons (arrives job) es = refl
  arrivals-cons ends es = refl

  run_events-all_jobs :
      (es : List (QueueEvent J)) (q : ProverQueue J)
      → all_jobs (run_events es q) ≡ (all_jobs q ++ arrivals es)
  unfolding run_events arrivals
  run_events-all_jobs [] q = sym (append-nil (all_jobs q))
  run_events-all_jobs (e ∷ es) q =
      run_events-all_jobs es (handle e q)
      ∙ ap (λ js. js ++ arrivals es) (handle-all_jobs e q)
      ∙ append_assoc (all_jobs q) (arrivals (e ∷ [])) (arrivals es)
      ∙ ap (λ js. all_jobs q ++ js) (sym (arrivals-cons e es))

  run_events-OneAtATime :
      (es : List (QueueEvent J)) (q : ProverQueue J) → OneAtATime q → OneAtATime (run_events es q)
  unfolding run_events
  run_events-OneAtATime [] q h = h
  run_events-OneAtATime (e ∷ es) q h =
      run_events-OneAtATime es (handle e q) (handle-OneAtATime e q h)

  -- As many ends as there are jobs in a list.
  unfoldable pub an_end_each : List J → List (QueueEvent J)
  an_end_each [] = []
  an_end_each (j ∷ js) = ends ∷ an_end_each js

  drains :
      (queue started : List J) (ended : ℕ)
      → (run_events
          (an_end_each queue)
          (record { queue = queue; running = true; started = started; ended = ended })).queue
        ≡ []
  unfolding run_events an_end_each handle
  drains [] started ended = refl
  drains (next ∷ rest) started ended = drains rest (started ++ (next ∷ [])) (ended + 1)

  drained_at :
      (queue : List J) (running : Bool) (started : List J) (ended : ℕ)
      → (running ≡ false → is_empty queue ≡ true)
      → (run_events
          (an_end_each queue)
          (record { queue = queue; running = running; started = started; ended = ended })).queue
        ≡ []
  unfolding run_events an_end_each
  drained_at queue true started ended h = drains queue started ended
  drained_at [] false started ended h = refl
  drained_at (next ∷ rest) false started ended h = cc (h refl)

  arrivals-an_end_each : (queue : List J) → arrivals (an_end_each queue) ≡ []
  unfolding arrivals an_end_each
  arrivals-an_end_each [] = refl
  arrivals-an_end_each (j ∷ js) = arrivals-an_end_each js

  drain-started :
      (q : ProverQueue J) → OneAtATime q → (run_events (an_end_each q.queue) q).started ≡ all_jobs q
  drain-started q h =
      sym (append-nil q'.started)
      ∙ ap (λ js. q'.started ++ js) (sym (drained_at q.queue q.running q.started q.ended h.waits))
      ∙ run_events-all_jobs (an_end_each q.queue) q
      ∙ ap (λ js. all_jobs q ++ js) (arrivals-an_end_each q.queue)
      ∙ append-nil (all_jobs q)
    where
      q' : ProverQueue J
      q' = run_events (an_end_each q.queue) q

  -- After any arrivals and ends, one job at most runs, none waits while none runs, the jobs called are
  -- the first of those that arrived, in order, and those that wait are the others; and when as many
  -- more jobs have ended as wait, all have been called.
  pub record IsFifo (es : List (QueueEvent J)) (q : ProverQueue J) : Type 0 where
    pub one : OneAtATime q
    pub order : (q.started ++ q.queue) ≡ arrivals es
    pub progress : (run_events (an_end_each q.queue) q).started ≡ arrivals es

  pub run_events-IsFifo : (es : List (QueueEvent J)) → IsFifo es (run_events es new_queue)
  run_events-IsFifo es = record {
    one = one;
    order = run_events-all_jobs es new_queue;
    progress = drain-started (run_events es new_queue) one ∙ run_events-all_jobs es new_queue;
  }
    where
      one : OneAtATime (run_events es new_queue)
      one = run_events-OneAtATime es new_queue (record { calls = refl; waits = λ e. refl })
