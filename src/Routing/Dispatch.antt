-- ===== src/Routing/Dispatch.antt =====
-- selectSolver and dispatchArbitrumSettlement of orchestrator/src/solver_routing.ts: the readings, the
-- decision, and the sequence with the deps of the solver selected. The mutex of the book makes one
-- selection follow another; selections are steps here that do not overlap.
use ma_at.Prelude.{
  ℕ, Bool, true, false, Option, none, some, List, [], ◌∷◌, if◌then◌else◌, Text, or_else, head?,
}
use ma_at.ProofOutput.{ProofOutputJson}
use ma_at.IntentStatus.{OnChainIntent}
use ma_at.ArbitrumLedger.{
  RoutingDecision, get_arbitrum_ledger_entry, get_posting_collateral_entries,
}
use ma_at.SolverStats.Record.{ReadSolverRecordResult}
use ma_at.Routing.Book.{hold_for, release}
use ma_at.Routing.Candidate.{Policy, CandidateRead}
use ma_at.Routing.Decide.{Inputs, Outcome, no_eligible, selected, SelectionResult, decide}
use ma_at.Routing.Reason.{selection_reason, refusal_reason}
use ma_at.Settlement.World.{
  Reply, Outside, World, Exec, TxOutcome, pure, throw, catch, finally, ◌>>=◌, ◌>>◌, modify, outward,
  now_ms, now_sec,
}
use ma_at.Settlement.Chain.{Config, Deps, OnSigned, read_intent}
use ma_at.Settlement.Notes.{refuse_arbitrum_settlement}
use ma_at.Settlement.Sequence.{is_under_way, run_arbitrum_settlement_sequence}

-- DispatchDeps: the readings of the outside, the policy, and the deps of each configured solver.
pub record DispatchDeps (W : Type 0) : Type 0 where
  pub candidates : List Text
  pub is_approved : Text → W → Reply Bool × W
  pub get_balance_wei : Text → W → Reply ℕ × W
  pub get_solver_records : W → Reply ReadSolverRecordResult × W
  pub policy : Policy
  pub reservation_hold_ms : ℕ
  pub build_settlement_deps : Text → Deps W

unfoldable pub attempt : {W A : Type 0} → Exec W A → Exec W (Option A)
attempt m = catch (m >>= λ a. pure (some a)) (λ e. pure none)

module _ {W : Type 0} (out : Outside W) (d : DispatchDeps W) where
  -- The two readings of each candidate, in order.
  unfoldable pub read_candidates : List Text → Exec W (List CandidateRead)
  unfolding attempt
  read_candidates [] = pure []
  read_candidates (solver ∷ solvers) = do
    approved ← attempt (outward (d.is_approved solver))
    balance ← attempt (outward (d.get_balance_wei solver))
    reads ← read_candidates solvers
    pure (record { solver = solver; approved = approved; balance = balance } ∷ reads)

  abbrev pub inputs :
      ProofOutputJson → ℕ → Option OnChainIntent → Option ReadSolverRecordResult → World W → Inputs
  inputs json now on_chain stats w = record {
    policy = d.policy;
    json = json;
    now_sec = now;
    now_ms = now_ms out w;
    on_chain = on_chain;
    stats = stats;
    posting = get_posting_collateral_entries w.ledger;
  }

  -- The step without an await.
  unfoldable pub decide_now :
      Text
      → ProofOutputJson
      → ℕ
      → Option OnChainIntent
      → Option ReadSolverRecordResult
      → List CandidateRead
      → Exec W SelectionResult
  decide_now id json now on_chain stats reads w =
      let (result, book) = decide (inputs json now on_chain stats w) id reads w.book in
      pure result (record w { book = book })

  unfoldable pub select_solver : List Text → Text → ProofOutputJson → ℕ → Exec W SelectionResult
  unfolding attempt read_candidates decide_now
  select_solver candidates id json now = do
    on_chain ← attempt (read_intent out id)
    stats ← attempt (outward d.get_solver_records)
    reads ← read_candidates candidates
    decide_now id json now on_chain stats reads

  -- The closure `releaseReservation`: it releases once, and not after a hold.
  unfoldable pub release_reservation : Text → Text → World W → World W
  release_reservation solver id w =
      if w.reservation_resolved
      then w
      else record w { reservation_resolved = true; book = release solver id w.book }

  unfoldable pub note_outcome : Text → Text → TxOutcome → World W → World W
  unfolding release_reservation
  note_outcome solver id outcome w =
      if outcome.ok
      then record w {
        reservation_resolved = true;
        book = hold_for solver id d.reservation_hold_ms (now_ms out w) w.book;
      }
      else release_reservation solver id w

  -- The `postCollateral` that stands in for the solver's own.
  unfoldable pub post_and_note : Text → Text → Deps W → Text → ℕ → OnSigned W → Exec W TxOutcome
  unfolding release_reservation note_outcome
  post_and_note solver intent_id base id value on_signed = do
    outcome ←
        catch (base.post_collateral id value on_signed)
          (λ e. modify (release_reservation solver intent_id) >> throw e)
    modify (note_outcome solver intent_id outcome)
    pure outcome

  abbrev pub decision : Text → Option ℕ → SelectionResult → RoutingDecision
  decision solver tier selection = record {
    selected_solver = some (some solver);
    tier_at_selection = some tier;
    routing_reason = some (selection_reason selection);
    collateral_wei = some selection.collateral_wei;
  }

  unfoldable pub settlement_deps : Text → Text → Option ℕ → SelectionResult → Deps W
  unfolding post_and_note
  settlement_deps solver id tier selection =
      let base = d.build_settlement_deps solver in
      record base {
        routing = some (decision solver tier selection);
        post_collateral = post_and_note solver id base;
      }

  abbrev pub nobody : SelectionResult → RoutingDecision
  nobody selection = record {
    selected_solver = some none;
    tier_at_selection = some none;
    routing_reason = some (selection_reason selection);
    collateral_wei = none;
  }

module _ {W : Type 0} (out : Outside W) (cfg : Config) (d : DispatchDeps W) where
  unfoldable pub settle_with : ℕ → Text → ProofOutputJson → SelectionResult → Outcome → Exec W Unit
  unfolding settlement_deps release_reservation
  settle_with fuel id json selection no_eligible = modify (
      refuse_arbitrum_settlement out id json (refusal_reason selection)
        (some (nobody out d selection)))
  settle_with fuel id json selection (selected solver tier why) =
      modify (λ w. record w { reservation_resolved = false })
      >> finally
          (run_arbitrum_settlement_sequence out cfg (settlement_deps out d solver id tier selection)
            fuel id json)
          (release_reservation out d solver id)

  -- The result is the selection, or null where routing did not run. The deps of a live intent are
  -- not used, so that it does not matter whose they are.
  unfoldable pub dispatch_arbitrum_settlement :
      ℕ → Text → ProofOutputJson → Exec W (Option SelectionResult)
  unfolding settle_with select_solver
  dispatch_arbitrum_settlement fuel id json w =
      let first = d.build_settlement_deps (or_else (head? d.candidates) []) in
      if is_under_way (get_arbitrum_ledger_entry id w.ledger)
      then (run_arbitrum_settlement_sequence out cfg first fuel id json >> pure none) w
      else (select_solver out d d.candidates id json (now_sec out w) >>= λ selection.
            settle_with fuel id json selection selection.outcome >> pure (some selection))
          w
