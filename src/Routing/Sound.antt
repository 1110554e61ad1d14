-- ===== src/Routing/Sound.antt =====
-- dispatchArbitrumSettlement of orchestrator/src/solver_routing.ts against the specification of
-- Settlement/Trace.
use ma_at.Prelude.{
  ℕ, ◌≡◌, refl, sym, subst, Bool, true, false, Option, none, List, [], ◌∷◌, if◌then◌else◌, Text,
  or_else, head?,
}
use ma_at.ProofOutput.{ProofOutputJson}
use ma_at.ArbitrumLedger.{get_arbitrum_ledger_entry}
use ma_at.Settlement.World.{Outside, World, Exec, TxOutcome, outward, now_ms, now_sec}
use ma_at.Settlement.Chain.{Config, read_intent}
use ma_at.Settlement.Sequence.{is_under_way}
use ma_at.Settlement.Keeps.{
  keeps-branch, keeps-bind, keeps-bind-modify, keeps-pure, keeps-throw, keeps-catch, keeps-outward,
  keeps-finally,
}
use ma_at.Settlement.Trace.{Sound, IsSound, modify-IsSound}
use ma_at.Settlement.Sound.Sending.{read_intent-Sound}
use ma_at.Settlement.Sound.Posting.{PostsSoundly, sequence-Sound, refuse-quiet}
use ma_at.Routing.Book.{hold_for, release}
use ma_at.Routing.Decide.{Outcome, no_eligible, selected, SelectionResult}
use ma_at.Routing.Dispatch.{
  DispatchDeps, attempt, read_candidates, decide_now, select_solver, release_reservation,
  note_outcome, post_and_note, settlement_deps, settle_with, dispatch_arbitrum_settlement,
}

module _ {W : Type 0} where
  attempt-Sound :
      {A : Type 0} (m : Exec W A) (w : World W) → Sound (m w).1.trace → Sound (attempt m w).1.trace
  unfolding attempt
  attempt-Sound m w s =
      keeps-catch IsSound _ _ w (keeps-bind IsSound m _ w s (λ a e. keeps-pure IsSound _ _ s))
        (λ e w' s'. keeps-pure IsSound none w' s')

module _ {W : Type 0} (out : Outside W) (cfg : Config) (d : DispatchDeps W) where
  read_candidates-Sound :
      (solvers : List Text) (w : World W)
      → Sound w.trace
      → Sound (read_candidates out d solvers w).1.trace
  unfolding read_candidates
  read_candidates-Sound [] w s = keeps-pure IsSound [] w s
  read_candidates-Sound (solver ∷ solvers) w s =
      let approved =
        attempt-Sound (outward (d.is_approved solver)) w (keeps-outward IsSound _ w λ o. s) in
      keeps-bind IsSound _ _ w approved λ a e.
        let balance =
          attempt-Sound (outward (d.get_balance_wei solver)) _
            (keeps-outward IsSound _ _ λ o. approved) in
        keeps-bind IsSound _ _ _ balance λ b e'.
          let reads = read_candidates-Sound solvers _ balance in
          keeps-bind IsSound _ _ _ reads λ rs e''. keeps-pure IsSound _ _ reads

  release-quiet :
      (solver id : Text) (w : World W) → (release_reservation out d solver id w).trace ≡ w.trace
  unfolding release_reservation
  release-quiet solver id w = go w.reservation_resolved
    where
      go :
          (b : Bool)
          → (if b
              then w
              else record w { reservation_resolved = true; book = release solver id w.book }).trace
            ≡ w.trace
      go true = refl
      go false = refl

  note-quiet :
      (solver id : Text) (outcome : TxOutcome) (w : World W)
      → (note_outcome out d solver id outcome w).trace ≡ w.trace
  unfolding note_outcome
  note-quiet solver id outcome w = go outcome.ok
    where
      held : World W
      held = record w {
        reservation_resolved = true;
        book = hold_for solver id d.reservation_hold_ms (now_ms out w) w.book;
      }

      go : (b : Bool) → (if b then held else release_reservation out d solver id w).trace ≡ w.trace
      go true = refl
      go false = release-quiet solver id w

  post_and_note-Sound :
      (solver id : Text)
      → PostsSoundly out cfg (d.build_settlement_deps solver)
      → (tier : Option ℕ) (selection : SelectionResult)
      → PostsSoundly out cfg (settlement_deps out d solver id tier selection)
  unfolding settlement_deps post_and_note
  post_and_note-Sound solver id posts tier selection = record {
    at = λ i value on_signed w a s.
        let posted = keeps-catch IsSound _ _ w (posts.at i value on_signed w a s) (λ e w' s'.
          keeps-bind-modify IsSound _ _ w' (
            keeps-throw TxOutcome IsSound e _
              (subst Sound (sym (release-quiet solver id w')) s'))) in
        keeps-bind IsSound _ _ w posted λ outcome e. keeps-bind-modify IsSound _ _ _ (
          keeps-pure IsSound outcome _ (subst Sound (sym (note-quiet solver id outcome _)) posted));
  }

  select_solver-Sound :
      (id : Text) (json : ProofOutputJson) (now : ℕ) (w : World W)
      → Sound w.trace
      → Sound (select_solver out d d.candidates id json now w).1.trace
  unfolding select_solver decide_now
  select_solver-Sound id json now w s = keeps-bind IsSound _ _ w on_chain λ o e.
      let stats =
        attempt-Sound (outward d.get_solver_records) _ (keeps-outward IsSound _ _ λ x. on_chain) in
      keeps-bind IsSound _ _ _ stats λ r e'.
        let reads = read_candidates-Sound d.candidates _ stats in
        keeps-bind IsSound _ _ _ reads λ rs e''. keeps-pure IsSound _ _ reads
    where
      on_chain : Sound (attempt (read_intent out id) w).1.trace
      on_chain =
          keeps-catch IsSound _ _ w
            (read_intent-Sound out id _ w s λ o w' l s'. keeps-pure IsSound _ w' s')
            (λ e w' s'. keeps-pure IsSound none w' s')

  settle_with-Sound :
      (fuel : ℕ) (id : Text) (json : ProofOutputJson) (selection : SelectionResult)
      (outcome : Outcome) (w : World W)
      → ((solver : Text) → PostsSoundly out cfg (d.build_settlement_deps solver))
      → Sound w.trace
      → Sound (settle_with out cfg d fuel id json selection outcome w).1.trace
  unfolding settle_with
  settle_with-Sound fuel id json selection no_eligible w posts s =
      modify-IsSound _ w (refuse-quiet out id json _ _ w) s
  settle_with-Sound fuel id json selection (selected solver tier why) w posts s =
      keeps-bind-modify IsSound _ _ w (
        keeps-finally IsSound _ _ _
          (sequence-Sound out cfg _ fuel id json _
            (post_and_note-Sound solver id (posts solver) tier selection) s)
          (λ w' s'. subst Sound (sym (release-quiet solver id w')) s'))

  -- With deps that post soundly for every solver, a dispatch does nothing unjustified, whoever is
  -- selected: from a sound trace it leads to a sound trace.
  pub dispatch-Sound :
      (fuel : ℕ) (id : Text) (json : ProofOutputJson) (w : World W)
      → ((solver : Text) → PostsSoundly out cfg (d.build_settlement_deps solver))
      → Sound w.trace
      → Sound (dispatch_arbitrum_settlement out cfg d fuel id json w).1.trace
  unfolding dispatch_arbitrum_settlement
  dispatch-Sound fuel id json w posts s =
      keeps-branch IsSound (is_under_way (get_arbitrum_ledger_entry id w.ledger)) _ _
        (λ e.
          let ran =
            sequence-Sound out cfg _ fuel id json w (posts (or_else (head? d.candidates) [])) s in
          keeps-bind IsSound _ _ w ran λ a e'. keeps-pure IsSound none _ ran)
        (λ e.
          let selected = select_solver-Sound id json (now_sec out w) w s in
          keeps-bind IsSound _ _ w selected λ selection e'.
            let settled =
              settle_with-Sound fuel id json selection selection.outcome _ posts selected in
            keeps-bind IsSound _ _ _ settled λ a e''. keeps-pure IsSound _ _ settled)
