-- ===== src/Examples/Queueing.antt =====
-- Three jobs, of which the first ends.
use ma_at.Prelude.{ℕ, ◌≡◌, refl, true, List, [], ◌∷◌}
use ma_at.Prover.Queue.{QueueEvent, arrives, ends, new_queue, run_events}
use ma_at.Prover.Queue.Fifo.{IsFifo, run_events-IsFifo}

abbrev events : List (QueueEvent ℕ)
events = arrives 7 ∷ arrives 8 ∷ arrives 9 ∷ ends ∷ []

second_runs :
    run_events events new_queue
    ≡ record { queue = 9 ∷ []; running = true; started = 7 ∷ 8 ∷ []; ended = 1 }
unfolding run_events
second_runs = refl

run_events-IsFifo_example : IsFifo events (run_events events new_queue)
run_events-IsFifo_example = run_events-IsFifo events
