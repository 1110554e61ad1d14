-- ===== src/IntentState/Calls.antt =====
-- The setters as one type of calls, for what holds of all of them.
use ma_at.Prelude.{ℕ, Bool, true, false, List, [], ◌∷◌, Text}
use ma_at.IntentState.{ProofStatus, SolverRoutingStatus, IntentCreatedFields, StateDir}
use ma_at.IntentState.Setters
use ma_at.IntentState.Setters.{SettlementPatch}

pub data Call : Type 0 where
  create : IntentCreatedFields → ProofStatus → Call
  proving final : Text → Call
  retrying : Text → ℕ → ℕ → Call
  verified rejected alerted reason_recorded : Text → Text → Call
  settling settled unconfirmed : Text → Text → Call
  arbitrum : Text → SettlementPatch → Call
  routed : Text → SolverRoutingStatus → Call

-- The intent that a call is about.
abbrev pub target : Call → Text
target (create fields status) = fields.intent_id
target (proving id) = id
target (final id) = id
target (retrying id attempt most) = id
target (verified id vkey) = id
target (rejected id reason) = id
target (alerted id reason) = id
target (reason_recorded id reason) = id
target (settling id sig) = id
target (settled id sig) = id
target (unconfirmed id sig) = id
target (arbitrum id patch) = id
target (routed id routing) = id

unfoldable pub apply : Call → ℕ → StateDir → StateDir
apply (create fields status) = Setters.record_intent_created fields status
apply (proving id) = Setters.set_proving id
apply (final id) = Setters.set_final id
apply (retrying id attempt most) = Setters.set_retrying id attempt most
apply (verified id vkey) = Setters.set_verified id vkey
apply (rejected id reason) = Setters.set_rejected id reason
apply (alerted id reason) = Setters.set_alert id reason
apply (reason_recorded id reason) = Setters.record_alert_reason id reason
apply (settling id sig) = Setters.set_settling id sig
apply (settled id sig) = Setters.set_settled id sig
apply (unconfirmed id sig) = Setters.set_unconfirmed_needs_review id sig
apply (arbitrum id patch) = Setters.set_arbitrum_settlement id patch
apply (routed id routing) = Setters.set_solver_routing id routing

-- The calls that prover_pipeline.ts makes about the proof itself.
abbrev pub is_proof_side : Call → Bool
is_proof_side (create fields status) = true
is_proof_side (proving id) = true
is_proof_side (retrying id attempt most) = true
is_proof_side (verified id vkey) = true
is_proof_side (rejected id reason) = true
is_proof_side (alerted id reason) = true
is_proof_side _ = false

-- Calls at their times, one after the other.
unfoldable pub apply_all : List (ℕ × Call) → StateDir → StateDir
apply_all [] dir = dir
apply_all ((now, c) ∷ cs) dir = apply_all cs (apply c now dir)
