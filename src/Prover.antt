-- ===== src/Prover.antt =====
-- proveIntent of orchestrator/src/prover_pipeline.ts: runs of the prover with retries, classified by
-- the exit code. A run of the child process, runProverProcess, is the parameter `run_prover`.
pub mod Verdict
pub mod Queue
use ma_at.Prelude.{
  ℕ, zero, suc, ◌+◌, ◌==◌, Bool, true, false, Option, none, some, List, [], ◌∷◌, ◌++◌,
  if◌then◌else◌, Text, text, show_ℕ,
}
use ma_at.Redact.{is_space}
use ma_at.ProofOutput.{ProofOutputJson}
use ma_at.IntentState.Setters.{set_proving, set_retrying, set_verified, set_rejected, set_alert}
use ma_at.Settlement.World.{Outside, World, move}
use ma_at.Settlement.Chain.{read_proof_json}
use ma_at.Settlement.Notes.{alert, write_state}

-- What a run of the prover leaves: its exit code, 1 where it could not start, and the tail of its stderr.
pub record ProverRun : Type 0 where
  pub code : ℕ
  pub stderr_tail : Text

pub data ProverOutcome : Type 0 where
  settle_check : ProofOutputJson → ProverOutcome
  prover_rejected prover_alert : ProverOutcome

abbrev pub max_prover_retries : ℕ
max_prover_retries = 3

-- RETRY_BACKOFF_MS, by the attempt that failed.
abbrev pub retry_backoff_ms : ℕ → ℕ
retry_backoff_ms attempt = if attempt == 1 then 5000 else if attempt == 2 then 15000 else 45000

abbrev pub push : ℕ → List Text → List Text
push c [] = (c ∷ []) ∷ []
push c (l ∷ ls) = (c ∷ l) ∷ ls

unfoldable pub split_lines : Text → List Text
split_lines [] = [] ∷ []
split_lines (c ∷ t) = let rest = split_lines t in if c == 10 then [] ∷ rest else push c rest

abbrev pub before_end : ℕ → Text → Text
before_end c [] = if is_space c then [] else c ∷ []
before_end c (d ∷ t) = c ∷ d ∷ t

unfoldable pub trim_end : Text → Text
trim_end [] = []
trim_end (c ∷ t) = before_end c (trim_end t)

unfoldable pub trim_start : Text → Text
trim_start [] = []
trim_start (c ∷ t) = let rest = trim_start t in if is_space c then rest else c ∷ t

abbrev pub or_later : Text → Text → Text
or_later l [] = l
or_later l (c ∷ t) = c ∷ t

unfoldable pub last_nonempty : List Text → Text
unfolding trim_start trim_end
last_nonempty [] = []
last_nonempty (l ∷ ls) = or_later (trim_start (trim_end l)) (last_nonempty ls)

unfoldable pub last_stderr_line : Text → Text
unfolding last_nonempty split_lines
last_stderr_line stderr_tail = last_nonempty (split_lines stderr_tail)

abbrev pub in_reason : Text → Text
in_reason [] = []
in_reason (c ∷ t) = text ": " ++ (c ∷ t)

pub missing_reason : Text
missing_reason = text "prover exited 0 but its output was missing/invalid — not settling"

pub unverified_reason : Text
unverified_reason = text "proof FAILED VERIFICATION (exit 4) — never settling"

pub exhausted_reason : ProverRun → Text
exhausted_reason run =
    text "prover failed 3/3 attempts (last exit "
    ++ (show_ℕ run.code
        ++ (in_reason (last_stderr_line run.stderr_tail) ++ text ") — giving up, never settling"))

module _ {W : Type 0} (out : Outside W) where
  unfoldable pub give_alert : Text → Text → World W → ProverOutcome × World W
  give_alert id reason w = (
    prover_alert,
    write_state out (set_alert id reason)
        (alert out (text "intent 0x" ++ (id ++ (text ": " ++ reason))) w),
  )

  unfoldable pub after_exit_0 : Text → Option ProofOutputJson → World W → ProverOutcome × World W
  after_exit_0 id none w = give_alert id missing_reason w
  after_exit_0 id (some json) w = (settle_check json, write_state out (set_verified id json.vkey) w)

  unfoldable pub after_run :
      Text → ℕ → ProverRun → (World W → ProverOutcome × World W) → World W → ProverOutcome × World W
  after_run id attempt run retry w =
      if run.code == 0
      then after_exit_0 id (read_proof_json out id w) w
      else if run.code == 2
      then (prover_rejected, write_state out (set_rejected id (text "semantic reject (exit 2)")) w)
      else if run.code == 4
      then give_alert id unverified_reason w
      else if attempt == max_prover_retries
      then give_alert id (exhausted_reason run) w
      else (let w' = write_state out (set_retrying id (attempt + 1) max_prover_retries) w in
          retry (move (out.sleep (retry_backoff_ms attempt) w'.outside) w'))

module _ {W : Type 0} (out : Outside W) (run_prover : Text → W → ProverRun × W) where
  -- The attempts that are left, and the number of the next one.
  unfoldable pub attempts : ℕ → ℕ → Text → Text → World W → ProverOutcome × World W
  attempts zero attempt tx_hash id w = (prover_alert, w)
  attempts (suc left) attempt tx_hash id w =
      let (run, o) = run_prover tx_hash w.outside in
      after_run out id attempt run (attempts left (attempt + 1) tx_hash id) (move o w)

  unfoldable pub prove_intent : Text → Text → World W → ProverOutcome × World W
  unfolding attempts
  prove_intent tx_hash id w =
      attempts max_prover_retries 1 tx_hash id (write_state out (set_proving id) w)
