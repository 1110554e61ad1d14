-- ===== src/Listener/Guarded.antt =====
-- What stands between an IntentCreated event and a settlement in orchestrator/src/listener.ts.
use ma_at.Prelude.{
  ℕ, zero, suc, ◌+◌, ◌==◌, ◌≡◌, refl, branch, subst, sym, ◌⊎◌, inl, inr, true, false, ◌||◌, Option,
  none, some, Text,
}
use ma_at.ProofOutput.{ProofOutputJson}
use ma_at.SettledLedger.{
  LedgerStatus, LedgerEntry, settling, settled, is_settled, get_ledger_entry, is_already_settled,
}
use ma_at.SettleGate.{settle_gate_ok}
use ma_at.IntentState.WellNamed.{WellNamed}
use ma_at.Settlement.World.{Reply, ok, threw, unfinished, Outside, World, pure, modify, move}
use ma_at.Settlement.Chain.{build_real_deps, read_proof_json}
use ma_at.Settlement.Notes.{alert}
use ma_at.Settlement.Trace.{Sound, IsSound}
use ma_at.Settlement.Keeps.{keeps-bind, keeps-pure}
use ma_at.Settlement.Sound.Posting.{build_real_deps-PostsSoundly}
use ma_at.Routing.Sound.{dispatch-Sound}
use ma_at.Prover.{
  ProverRun, ProverOutcome, settle_check, prover_rejected, prover_alert, give_alert, after_exit_0,
  after_run, attempts, prove_intent, max_prover_retries,
}
use ma_at.Prover.Verdict.{Recorded, prove_intent-Recorded}
use ma_at.Listener.Payout.{is_settling}
use ma_at.Listener.Verify.{
  Setup, intent_id_hex, failed_checks, routing_deps, refuse, settle, after_block, after_proof,
  verify_and_settle,
}

module _ {W : Type 0} where
  -- Nothing was broadcast, paid or looked up, and the settled ledger is as it was.
  pub record Quiet (w w' : World W) : Type 0 where
    pub trace : w'.trace ≡ w.trace
    pub settled : w'.settled ≡ w.settled

  abbrev QuietEnd : {A : Type 0} → World W → A × World W → Type 0
  QuietEnd w x = Quiet w x.1

module _ {W : Type 0} (out : Outside W) where
  after_exit_0-Quiet :
      (id : Text) (j : Option ProofOutputJson) (v w : World W)
      → Quiet v w
      → Quiet v (after_exit_0 out id j w).1
  unfolding after_exit_0 give_alert alert
  after_exit_0-Quiet id none v w q = record { trace = q.trace; settled = q.settled }
  after_exit_0-Quiet id (some json) v w q = record { trace = q.trace; settled = q.settled }

  after_run-Quiet :
      (id : Text) (attempt : ℕ) (run : ProverRun) (retry : World W → ProverOutcome × World W)
      (v w : World W)
      → Quiet v w
      → ((w' : World W) → Quiet v w' → Quiet v (retry w').1)
      → Quiet v (after_run out id attempt run retry w).1
  unfolding after_run give_alert alert
  after_run-Quiet id attempt run retry v w q k =
      branch (QuietEnd v) (run.code == 0) _ _
        (λ e. after_exit_0-Quiet id (read_proof_json out id w) v w q)
        λ e.
          branch (QuietEnd v) (run.code == 2) _ _
            (λ e'. record { trace = q.trace; settled = q.settled })
            λ e'.
              branch (QuietEnd v) (run.code == 4) _ _
                (λ e''. record { trace = q.trace; settled = q.settled })
                λ e''.
                  branch (QuietEnd v) (attempt == max_prover_retries) _ _
                    (λ d. record { trace = q.trace; settled = q.settled })
                    (λ d. k _ (record { trace = q.trace; settled = q.settled }))

  module _ (run_prover : Text → W → ProverRun × W) where
    attempts-Quiet :
        (left attempt : ℕ) (tx_hash id : Text) (v w : World W)
        → Quiet v w
        → Quiet v (attempts out run_prover left attempt tx_hash id w).1
    unfolding attempts
    attempts-Quiet zero attempt tx_hash id v w q = q
    attempts-Quiet (suc left) attempt tx_hash id v w q =
        after_run-Quiet id attempt _ _ v _ (record { trace = q.trace; settled = q.settled })
          (λ w' q'. attempts-Quiet left (attempt + 1) tx_hash id v w' q')

    pub prove_intent-Quiet :
        (tx_hash id : Text) (w : World W) → Quiet w (prove_intent out run_prover tx_hash id w).1
    unfolding prove_intent
    prove_intent-Quiet tx_hash id w =
        attempts-Quiet max_prover_retries 1 tx_hash id w _ (record { trace = refl; settled = refl })

module _ {W : Type 0} (out : Outside W) (setup : Setup W) where
  -- A proof that may be settled: it is on disk, all checks of the gate pass against the canonical
  -- block, and the settled ledger has nothing of its intent.
  pub record Cleared (id : Text) (proved : World W) : Type 0 where
    pub json : ProofOutputJson
    pub hash : Text
    pub outside : W
    pub on_disk : read_proof_json out (intent_id_hex id) proved ≡ some json
    pub canonical : (setup.get_block_hash json.block_number proved.outside) ≡ (ok hash, outside)
    pub gate : settle_gate_ok (failed_checks out setup json hash (move outside proved)) ≡ true
    pub unpaid : get_ledger_entry json.intent_id proved.settled ≡ none

  abbrev pub Guarded : Text → World W → World W → World W → Type 0
  Guarded id w proved w' = Sound w'.trace × (Quiet w w' ⊎ Cleared id proved)

  pub settle-Sound :
      (fuel : ℕ) (json : ProofOutputJson) (w : World W)
      → Sound w.trace
      → Sound (settle out setup fuel json w).1.trace
  unfolding settle build_real_deps
  settle-Sound fuel json w s =
      let ran =
        dispatch-Sound out setup.config (routing_deps out setup fuel json) fuel json.intent_id json
          w (λ solver. build_real_deps-PostsSoundly out setup.config solver _ none) s in
      keeps-bind IsSound _ _ w ran λ a e. keeps-pure IsSound tt _ ran

  no_entry :
      (o : Option LedgerEntry) → (is_settled o || is_settling setup.child o) ≡ false → o ≡ none
  no_entry none h = refl
  no_entry (some e) h = go e.status h
    where
      go :
          (st : LedgerStatus)
          → ((elim st [ settled ↦ true | settling ↦ false ])
              || (elim st [ settling ↦ true | settled ↦ false ]))
            ≡ false
          → some e ≡ none
      go settling h' = cc
      go settled h' = cc

  refuse-Guarded :
      (id reason : Text) (w proved v : World W)
      → Sound v.trace
      → Quiet w v
      → Guarded id w proved (refuse out setup id reason v).1
  unfolding refuse modify alert
  refuse-Guarded id reason w proved v s q =
      (s, inl (record { trace = q.trace; settled = q.settled }))

  after_block-Guarded :
      (fuel : ℕ) (id : Text) (json : ProofOutputJson) (w proved : World W)
      → Sound proved.trace
      → Quiet w proved
      → read_proof_json out (intent_id_hex id) proved ≡ some json
      → Guarded id w proved (after_proof out setup fuel id (settle_check json) proved).1
  unfolding after_proof is_already_settled
  after_block-Guarded fuel id json w proved s q disk =
      go (setup.get_block_hash json.block_number proved.outside) refl
    where
      go :
          (x : Reply Text × W)
          → setup.get_block_hash json.block_number proved.outside ≡ x
          → Guarded id w proved (after_block out setup fuel id json x.0 (move x.1 proved)).1
      go (threw e, o) eq =
          refuse-Guarded id _ w proved (move o proved) s
            (record { trace = q.trace; settled = q.settled })
      go (unfinished, o) eq = (s, inl (record { trace = q.trace; settled = q.settled }))
      go (ok hash, o) eq =
          branch (λ (x : Reply Unit × World W). Guarded id w proved x.1)
            (settle_gate_ok (failed_checks out setup json hash (move o proved))) _ _
            (λ gate.
              branch (λ (x : Reply Unit × World W). Guarded id w proved x.1)
                (is_already_settled json.intent_id proved.settled
                  || is_settling setup.child (get_ledger_entry json.intent_id proved.settled))
                _ _
                (λ e.
                  refuse-Guarded id _ w proved (move o proved) s
                    (record { trace = q.trace; settled = q.settled }))
                (λ e. (
                  settle-Sound fuel json (move o proved) s,
                  inr (record {
                    json = json;
                    hash = hash;
                    outside = o;
                    on_disk = disk;
                    canonical = eq;
                    gate = gate;
                    unpaid = no_entry (get_ledger_entry json.intent_id proved.settled) e;
                  }),
                )))
            (λ e.
              refuse-Guarded id _ w proved (move o proved) s
                (record { trace = q.trace; settled = q.settled }))

  -- From a sound trace and a directory whose files are named by the keys of their intents, the job of
  -- an IntentCreated event leads to a sound trace; and it leaves the trace and the settled ledger as
  -- they were, unless the intent's proof is on disk when proveIntent returns, passes the settle gate
  -- against the block hash that the chain then answers with, and the settled ledger then has nothing
  -- of its intent.
  pub verify_and_settle-Guarded :
      (fuel : ℕ) (tx_hash id : Text) (w : World W)
      → WellNamed w.states
      → Sound w.trace
      → Guarded id w
          (prove_intent out setup.run_prover tx_hash (intent_id_hex id) w).1
          (verify_and_settle out setup fuel tx_hash id w).1
  unfolding verify_and_settle after_proof pure
  verify_and_settle-Guarded fuel tx_hash id w named s =
      go proved.0 (prove_intent-Recorded out setup.run_prover tx_hash (intent_id_hex id) w named)
    where
      proved : ProverOutcome × World W
      proved = prove_intent out setup.run_prover tx_hash (intent_id_hex id) w

      quiet : Quiet w proved.1
      quiet = prove_intent-Quiet out setup.run_prover tx_hash (intent_id_hex id) w

      sound : Sound proved.1.trace
      sound = subst Sound (sym quiet.trace) s

      go :
          (outcome : ProverOutcome)
          → Recorded out (intent_id_hex id) (outcome, proved.1)
          → Guarded id w proved.1 (after_proof out setup fuel id outcome proved.1).1
      go prover_rejected r = (sound, inl quiet)
      go prover_alert r = (sound, inl quiet)
      go (settle_check json) r = after_block-Guarded fuel id json w proved.1 sound quiet r.0
