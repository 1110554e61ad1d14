-- ===== src/Prover/Verdict.antt =====
-- The verdict of proveIntent and what the intent's file says of it.
use ma_at.Prelude.{
  branch, ℕ, zero, suc, ◌+◌, ◌==◌, ◌≡◌, refl, false, Option, none, some, Text, text_eq_refl, arith,
}
use ma_at.ProofOutput.{ProofOutputJson}
use ma_at.IntentState.{IntentState, StateDir, ProofStatus, rejected, verified, upsert, read_state}
use ma_at.IntentState.Setters.{set_proving, set_retrying, set_verified, set_rejected, set_alert}
use ma_at.IntentState.WellNamed.{WellNamed, KeepsName, before, upsert-WellNamed, read_state-upsert}
use ma_at.Settlement.World.{Outside, World}
use ma_at.Settlement.Chain.{read_proof_json}
use ma_at.Settlement.Notes.{alert}
use ma_at.Prover.{
  ProverRun, ProverOutcome, settle_check, prover_rejected, prover_alert, give_alert, after_exit_0,
  after_run, attempts, prove_intent, max_prover_retries,
}

abbrev status_in : Option IntentState → Option ProofStatus
status_in none = none
status_in (some s) = some s.proof_status

-- The proof status that an intent has on file.
abbrev pub status_of : Text → StateDir → Option ProofStatus
status_of id dir = status_in (read_state id dir)

module _ {W : Type 0} (out : Outside W) where
  -- The file of the intent says what the outcome says, and a proof to settle is the one on disk.
  abbrev pub Recorded : Text → ProverOutcome × World W → Type 0
  Recorded id (settle_check json, w) =
      (read_proof_json out id w ≡ some json) × (status_of id w.states ≡ some verified)
  Recorded id (prover_rejected, w) = status_of id w.states ≡ some rejected
  Recorded id (prover_alert, w) = status_of id w.states ≡ some ProofStatus.alert

status-upsert :
    (id : Text) (patch : IntentState → IntentState) (now : ℕ) (dir : StateDir)
    → KeepsName id patch
    → WellNamed dir
    → status_of id (upsert id patch now dir) ≡ some (patch (before id now dir)).proof_status
status-upsert id patch now dir keeps h =
    rw (read_state-upsert id id patch now dir keeps h, text_eq_refl) refl

last_attempt :
    {A : Type 0} (attempt : ℕ)
    → attempt + 0 ≡ max_prover_retries
    → (attempt == max_prover_retries) ≡ false
    → A
last_attempt attempt e ne = ground (arith, e, ne)

module _ {W : Type 0} (out : Outside W) where
  give_alert-Recorded :
      (id reason : Text) (w : World W)
      → WellNamed w.states
      → Recorded out id (give_alert out id reason w)
  unfolding give_alert alert set_alert
  give_alert-Recorded id reason w h = status-upsert id _ _ w.states (λ s e. e) h

  after_exit_0-Recorded :
      (id : Text) (w : World W)
      → WellNamed w.states
      → Recorded out id (after_exit_0 out id (read_proof_json out id w) w)
  unfolding after_exit_0 set_verified read_proof_json
  after_exit_0-Recorded id w h = go (read_proof_json out id w) refl
    where
      go :
          (j : Option ProofOutputJson)
          → read_proof_json out id w ≡ j
          → Recorded out id (after_exit_0 out id j w)
      go none e = give_alert-Recorded id _ w h
      go (some json) e = (e, status-upsert id _ _ w.states (λ s e'. e') h)

  after_run-Recorded :
      (id : Text) (attempt : ℕ) (run : ProverRun) (retry : World W → ProverOutcome × World W)
      (w : World W)
      → WellNamed w.states
      → ((attempt == max_prover_retries) ≡ false
          → (w' : World W) → WellNamed w'.states
          → Recorded out id (retry w'))
      → Recorded out id (after_run out id attempt run retry w)
  unfolding after_run set_rejected set_retrying
  after_run-Recorded id attempt run retry w h k =
      branch (Recorded out id) (run.code == 0) _ _ (λ e. after_exit_0-Recorded id w h)
        λ e0.
          branch (Recorded out id) (run.code == 2) _ _
            (λ e. status-upsert id _ _ w.states (λ s e'. e') h)
            λ e2.
              branch (Recorded out id) (run.code == 4) _ _ (λ e. give_alert-Recorded id _ w h)
                λ e4.
                  branch (Recorded out id) (attempt == max_prover_retries) _ _
                    (λ e. give_alert-Recorded id _ w h)
                    (λ e. k e _ (upsert-WellNamed id _ _ w.states h))

  module _ (run_prover : Text → W → ProverRun × W) where
    attempts-Recorded :
        (left attempt : ℕ) (tx_hash id : Text) (w : World W)
        → attempt + left ≡ max_prover_retries
        → WellNamed w.states
        → Recorded out id (attempts out run_prover (suc left) attempt tx_hash id w)
    unfolding attempts
    attempts-Recorded zero attempt tx_hash id w e h =
        after_run-Recorded id attempt _ _ _ h (λ ne w' h'. last_attempt attempt e ne)
    attempts-Recorded (suc left) attempt tx_hash id w e h =
        after_run-Recorded id attempt _ _ _ h
          (λ ne w' h'. attempts-Recorded left (attempt + 1) tx_hash id w' (omega (arith, e)) h')

    -- In a directory whose files are named by the keys of their intents, proveIntent leaves in the
    -- intent's file the status that its outcome says: verified for a proof to settle, rejected, or alert.
    -- A proof to settle is the one that readProofJson finds on disk then.
    pub prove_intent-Recorded :
        (tx_hash id : Text) (w : World W)
        → WellNamed w.states
        → Recorded out id (prove_intent out run_prover tx_hash id w)
    unfolding prove_intent set_proving
    prove_intent-Recorded tx_hash id w h =
        attempts-Recorded 2 1 tx_hash id _ refl (upsert-WellNamed id _ _ w.states h)
