-- ===== src/Examples/Proving.antt =====
-- A prover that fails once for want of infrastructure and proves the second time.
use ma_at.Prelude.{ℕ, ◌≡◌, refl, ◌+◌, [], ◌∷◌, if◌then◌else◌, text, text_eq, Text, ltb}
use ma_at.Settlement.Chain.{read_proof_json}
use ma_at.Prover.{
  ProverRun, settle_check, after_run, after_exit_0, attempts, prove_intent, last_stderr_line,
  last_nonempty, split_lines, trim_start, trim_end,
}
use ma_at.Redact.{is_space}
use ma_at.Prover.Verdict.{Recorded, prove_intent-Recorded}
use ma_at.Examples.Fixture.{intent, out, proof, world, empty_ledger}

-- A run fails until the time 104000.
abbrev run_prover : Text → ℕ → ProverRun × ℕ
run_prover tx_hash now =
    (record { code = if ltb now 104000 then 1 else 0; stderr_tail = text "infra" }, now + 1000)

proves : (prove_intent out run_prover intent intent (world empty_ledger)).0 ≡ settle_check proof
unfolding prove_intent attempts after_run after_exit_0 read_proof_json text_eq text
proves = refl

last_line : last_stderr_line (97 ∷ 10 ∷ 32 ∷ 98 ∷ 32 ∷ 10 ∷ []) ≡ 98 ∷ []
unfolding last_stderr_line last_nonempty split_lines trim_start trim_end is_space
last_line = refl

prove_intent-Recorded_example :
    Recorded out intent (prove_intent out run_prover intent intent (world empty_ledger))
prove_intent-Recorded_example =
    prove_intent-Recorded out run_prover intent intent (world empty_ledger) tt
