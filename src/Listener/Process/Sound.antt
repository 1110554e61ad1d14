-- ===== src/Listener/Process/Sound.antt =====
-- A run of the process of orchestrator/src/listener.ts sends nothing that is not justified.
use ma_at.Prelude.{ℕ, branch, Option, none, some, List, [], ◌∷◌, Text}
use ma_at.Settlement.World.{Reply, ok, threw, unfinished, Outside, World}
use ma_at.Settlement.Trace.{Sound, IsSound}
use ma_at.Settlement.Keeps.{keeps-bind, keeps-pure, keeps-catch, keeps-for_each}
use ma_at.Settlement.Sound.Booting.{resume_collateral_posted-Sound, reconcile-Sound}
use ma_at.Settlement.Sound.Slashing.{poll-Sound}
use ma_at.Settling.{reconcile_settling_ledger}
use ma_at.Listener.Verify.{Setup}
use ma_at.Listener.Events.{Job}
use ma_at.Listener.Sound.{
  reconcile_settling-Sound, poll_finality-Sound, log_intent_created-Sound, verify_and_settle-Sound,
}
use ma_at.Listener.Process.{
  Node, Process, Tick, intent_created, job_runs, finality, slash, settling, reconciliation_deps,
  build_run_solana_payout_for_resume, resume_settled, settling_tick, boot, run_job, last, handle,
  handle_all, after_boot, run_process,
}

-- The same of a process.
abbrev IsSoundIn : {W : Type 0} → Process W → Type 0
IsSoundIn p = Sound p.world.trace

module _ {W : Type 0} (out : Outside W) (setup : Setup W) (node : Node W) (fuel : ℕ) where
  reconcile_ledger-Sound :
      (alerted : List Text) (w : World W)
      → Sound w.trace
      → Sound (reconcile_settling_ledger out alerted w).1.trace
  unfolding reconcile_settling_ledger
  reconcile_ledger-Sound alerted w s = reconcile_settling-Sound out _ _ w s

  resume_settled-Sound :
      (ids : List Text) (w : World W)
      → Sound w.trace
      → Sound (resume_settled out setup node fuel ids w).1.trace
  unfolding resume_settled
  resume_settled-Sound ids w s =
      keeps-for_each IsSound _ ids w
        (λ id w' s'.
          keeps-catch IsSound _ _ w'
            (resume_collateral_posted-Sound out setup.config
              (reconciliation_deps out setup node fuel)
              (some (build_run_solana_payout_for_resume out setup node fuel)) fuel id w' s')
            (λ e v t. keeps-pure IsSound tt v t))
        s

  settling_tick-Sound :
      (alerted : List Text) (w : World W)
      → Sound w.trace
      → Sound (settling_tick out setup node fuel alerted w).1.trace
  unfolding settling_tick
  settling_tick-Sound alerted w s =
      keeps-bind IsSound _ _ w (reconcile_ledger-Sound alerted w s) λ pass e.
        let resumed =
          resume_settled-Sound pass.newly_settled _ (reconcile_ledger-Sound alerted w s) in
        keeps-bind IsSound _ _ _ resumed λ a d. keeps-pure IsSound pass.alerted _ resumed

  boot-Sound : (w : World W) → Sound w.trace → Sound (boot out setup node fuel w).1.trace
  unfolding boot
  boot-Sound w s =
      let settled = reconcile_ledger-Sound [] w s in
      keeps-bind IsSound _ _ w settled λ pass e.
        let arbitrum =
          reconcile-Sound out setup.config (reconciliation_deps out setup node fuel)
            (some (build_run_solana_payout_for_resume out setup node fuel)) fuel _ settled in
        keeps-bind IsSound _ _ _ arbitrum λ a d.
          keeps-bind IsSound _ _ _ arbitrum λ block c. keeps-pure IsSound pass.alerted _ arbitrum

  run_job-Sound :
      (j : Option Job) (w : World W) → Sound w.trace → Sound (run_job out setup node fuel j w).trace
  run_job-Sound none w s = s
  run_job-Sound (some j) w s = verify_and_settle-Sound out setup fuel j.tx_hash j.intent_id w s

  handle-Sound :
      (t : Tick) (p : Process W) → IsSoundIn p → IsSoundIn (handle out setup node fuel t p)
  unfolding handle
  handle-Sound (intent_created log chain_label) p s =
      log_intent_created-Sound out setup log chain_label p.world p.prover_queue s
  handle-Sound job_runs p s =
      branch IsSoundIn p.prover_queue.running _ _
        (λ e. run_job-Sound (last out setup node fuel p.prover_queue.started) p.world s) (λ e. s)
  handle-Sound finality p s = poll_finality-Sound out node.get_finalized p.world s
  handle-Sound slash p s = poll-Sound out setup.config fuel p.world s
  handle-Sound settling p s = settling_tick-Sound p.alerted p.world s

  handle_all-Sound :
      (ts : List Tick) (p : Process W)
      → IsSoundIn p
      → IsSoundIn (handle_all out setup node fuel ts p)
  unfolding handle_all
  handle_all-Sound [] p s = s
  handle_all-Sound (t ∷ ts) p s = handle_all-Sound ts _ (handle-Sound t p s)

  -- From a sound trace, the process sends nothing that is not justified, and leaves a sound trace: when
  -- it starts and reconciles its ledgers, and whatever events, jobs and timers come after that, in
  -- whatever order, each run to its end before the next.
  pub run_process-Sound :
      (ticks : List Tick) (w : World W)
      → Sound w.trace
      → Sound (run_process out setup node fuel ticks w).trace
  unfolding run_process
  run_process-Sound ticks w s =
      go (boot out setup node fuel w).0 (boot out setup node fuel w).1 (boot-Sound w s)
    where
      go :
          (r : Reply (List Text)) (v : World W)
          → Sound v.trace
          → Sound (after_boot out setup node fuel ticks (r, v)).trace
      go (ok alerted) v t = handle_all-Sound ticks _ t
      go (threw e) v t = t
      go unfinished v t = t
