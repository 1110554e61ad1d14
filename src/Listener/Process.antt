-- ===== src/Listener/Process.antt =====
-- The process of orchestrator/src/listener.ts as a whole: what main does when it starts, and then
-- what events and timers do, each from its start to its end. Calls that overlap in time are not
-- modelled. An error that leaves one of them is printed, and the process goes on. An event carries the
-- name of its chain, so that the watcher of Robinhood, where it is enabled, is covered.
pub mod Sound
use ma_at.Prelude.{
  ℕ, Bool, true, false, Option, none, some, List, [], ◌∷◌, if◌then◌else◌, Text, text,
}
use ma_at.ProofOutput.{ProofOutputJson}
use ma_at.Settlement.World.{
  Reply, ok, threw, unfinished, Outside, World, Exec, Side, SolanaPayoutResult, pure, catch, ◌>>=◌,
  ◌>>◌, move,
}
use ma_at.Settlement.Chain.{Deps, build_real_deps}
use ma_at.Settlement.Slash.{for_each, poll_awaiting_slash}
use ma_at.Settlement.Resume.{BuildPayout, resume_collateral_posted_intent}
use ma_at.Settlement.Reconcile.{reconcile_arbitrum_ledger}
use ma_at.Settling.{Pass, reconcile_settling_ledger}
use ma_at.Prover.Queue.{ProverQueue, new_queue, job_ended}
use ma_at.Destination.{decode_destination_wallet}
use ma_at.Listener.Payout.{run_solana_payout}
use ma_at.Listener.Verify.{Setup, verify_and_settle}
use ma_at.Listener.Events.{IntentCreatedLog, Job, log_intent_created, poll_finality}

-- What the timers and the start read besides: the finalized block, a block's number, and the address
-- of the first configured solver.
pub record Node (W : Type 0) : Type 0 where
  pub get_finalized : W → Reply (Option ℕ) × W
  pub get_block_number : W → Reply ℕ × W
  pub default_solver : Text

pub record Process (W : Type 0) : Type 0 where
  pub world : World W
  pub prover_queue : ProverQueue Job
  pub alerted : List Text  -- the signatures that were alerted

pub data Tick : Type 0 where
  intent_created : IntentCreatedLog → Text → Tick
  job_runs : Tick  -- the job that the queue has called, up to its end
  finality slash settling : Tick

module _ {W : Type 0} (out : Outside W) (setup : Setup W) (node : Node W) (fuel : ℕ) where
  -- Its payout is never to be run.
  abbrev pub reconciliation_deps : Deps W
  reconciliation_deps =
      build_real_deps out setup.config node.default_solver λ z s.
        (threw (text "runSolanaPayout must not be called from reconciliation/poller deps"), s)

  unfoldable pub build_run_solana_payout_for_resume :
      Text → ProofOutputJson → Text → Side W → Reply SolanaPayoutResult × Side W
  build_run_solana_payout_for_resume id json = run_solana_payout setup.child fuel json (
      decode_destination_wallet setup.sha256 setup.solana_base58 json.destination_wallet
        json.destination_chain_id)

  abbrev pub resume : Text → Exec W Unit
  resume id =
      resume_collateral_posted_intent out setup.config reconciliation_deps
        (some build_run_solana_payout_for_resume) fuel id

  -- Every intent that a pass has just settled goes on, whatever becomes of the others.
  unfoldable pub resume_settled : List Text → Exec W Unit
  resume_settled = for_each (λ id. catch (resume id) (λ e. pure tt))

  unfoldable pub settling_tick : List Text → Exec W (List Text)
  unfolding resume_settled
  settling_tick alerted = do
    pass ← reconcile_settling_ledger out alerted
    resume_settled pass.newly_settled
    pure pass.alerted

  -- main up to its watchers: it fails where the process exits.
  unfoldable pub boot : World W → Reply (List Text) × World W
  boot = do
    pass ← reconcile_settling_ledger out []
    reconcile_arbitrum_ledger out setup.config reconciliation_deps
        (some build_run_solana_payout_for_resume) fuel
    block ← λ w. (let (reply, o) = node.get_block_number w.outside in (reply, move o w))
    pure pass.alerted

  abbrev pub or_same : Reply (List Text) → List Text → List Text
  or_same (ok alerted) old = alerted
  or_same (threw e) old = old
  or_same unfinished old = old

  abbrev pub last : List Job → Option Job
  last [] = none
  last (j ∷ []) = some j
  last (j ∷ k ∷ js) = last (k ∷ js)

  -- The job called last is the one that runs.
  abbrev pub run_job : Option Job → World W → World W
  run_job none w = w
  run_job (some j) w = (verify_and_settle out setup fuel j.tx_hash j.intent_id w).1

  unfoldable pub handle : Tick → Process W → Process W
  unfolding settling_tick
  handle (intent_created log chain_label) p =
      let (w, q) = log_intent_created out setup log chain_label (p.world, p.prover_queue) in
      record p { world = w; prover_queue = q }
  handle job_runs p =
      if p.prover_queue.running
      then record p {
        world = run_job (last p.prover_queue.started) p.world;
        prover_queue = job_ended p.prover_queue;
      }
      else p
  handle finality p = record p { world = poll_finality out node.get_finalized p.world }
  handle slash p = record p { world = (poll_awaiting_slash out setup.config fuel p.world).1 }
  handle settling p =
      let (reply, w) = settling_tick p.alerted p.world in
      record p { world = w; alerted = or_same reply p.alerted }

  unfoldable pub handle_all : List Tick → Process W → Process W
  unfolding handle
  handle_all [] p = p
  handle_all (t ∷ ts) p = handle_all ts (handle t p)

  abbrev pub after_boot : List Tick → Reply (List Text) × World W → World W
  after_boot ticks (ok alerted, w) =
      (handle_all ticks (record { world = w; prover_queue = new_queue; alerted = alerted })).world
  after_boot ticks (threw e, w) = w
  after_boot ticks (unfinished, w) = w

  -- A run of the process: the world that it leaves.
  unfoldable pub run_process : List Tick → World W → World W
  unfolding boot handle_all
  run_process ticks w = after_boot ticks (boot w)
