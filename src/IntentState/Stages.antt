-- ===== src/IntentState/Stages.antt =====
-- What holds of every setter: whose file it writes, and which part of the state it may change.
use ma_at.Prelude.{
  ℕ, ◌≡◌, refl, ◌≢◌, false, some, List, [], ◌∷◌, arith, Text, key_of, text_eq, text_eq_iff,
  if◌then◌else◌,
}
use ma_at.IntentState.{IntentState, StateDir, read_state, upsert}
use ma_at.IntentState.Calls.{
  Call, create, proving, final, retrying, verified, rejected, alerted, reason_recorded, settling,
  settled, unconfirmed, arbitrum, routed, target, apply, apply_all, is_proof_side,
}
use ma_at.IntentState.Setters.{
  record_intent_created, set_proving, set_retrying, set_verified, set_rejected, set_alert,
  record_alert_reason, set_settling, set_settled, set_unconfirmed_needs_review,
  set_arbitrum_settlement, set_solver_routing, set_final,
}
use ma_at.IntentState.WellNamed.{
  WellNamed, KeepsName, before, before-eq, upsert-WellNamed, read_state-upsert,
}

-- The part of a state that the proof side owns.
pub record SameProof (s t : IntentState) : Type 0 where
  pub fields : t.fields ≡ s.fields
  pub vkey : t.vkey ≡ s.vkey
  pub proof_status : t.proof_status ≡ s.proof_status
  pub reject_reason : t.reject_reason ≡ s.reject_reason

-- A call is a patch of one state.
record IsPatch (c : Call) (now : ℕ) : Type 0 where
  patch : IntentState → IntentState
  keeps : KeepsName (target c) patch
  applied : (dir : StateDir) → apply c now dir ≡ upsert (target c) patch now dir
  beside : is_proof_side c ≡ false → (s : IntentState) → SameProof s (patch s)

apply-IsPatch : (c : Call) (now : ℕ) → IsPatch c now
unfolding apply record_intent_created set_proving set_final set_retrying set_verified set_rejected
    set_alert record_alert_reason set_settling set_settled set_unconfirmed_needs_review
    set_arbitrum_settlement set_solver_routing
apply-IsPatch (create fields status) now = record {
  patch = _;
  keeps = λ s e. refl;
  applied = λ dir. refl;
  beside = λ e s. ground arith;
}
apply-IsPatch (proving id) now = record {
  patch = _;
  keeps = λ s e. e;
  applied = λ dir. refl;
  beside = λ e s. ground arith;
}
apply-IsPatch (final id) now = record {
  patch = _;
  keeps = λ s e. e;
  applied = λ dir. refl;
  beside = λ e s. ground arith;
}
apply-IsPatch (retrying id attempt most) now = record {
  patch = _;
  keeps = λ s e. e;
  applied = λ dir. refl;
  beside = λ e s. ground arith;
}
apply-IsPatch (verified id vkey) now = record {
  patch = _;
  keeps = λ s e. e;
  applied = λ dir. refl;
  beside = λ e s. ground arith;
}
apply-IsPatch (rejected id reason) now = record {
  patch = _;
  keeps = λ s e. e;
  applied = λ dir. refl;
  beside = λ e s. ground arith;
}
apply-IsPatch (alerted id reason) now = record {
  patch = _;
  keeps = λ s e. e;
  applied = λ dir. refl;
  beside = λ e s. ground arith;
}
apply-IsPatch (reason_recorded id reason) now = record {
  patch = _;
  keeps = λ s e. e;
  applied = λ dir. refl;
  beside = λ e s. ground arith;
}
apply-IsPatch (settling id sig) now = record {
  patch = _;
  keeps = λ s e. e;
  applied = λ dir. refl;
  beside = λ e s. ground arith;
}
apply-IsPatch (settled id sig) now = record {
  patch = _;
  keeps = λ s e. e;
  applied = λ dir. refl;
  beside = λ e s. ground arith;
}
apply-IsPatch (unconfirmed id sig) now = record {
  patch = _;
  keeps = λ s e. e;
  applied = λ dir. refl;
  beside = λ e s. ground arith;
}
apply-IsPatch (arbitrum id patch) now = record {
  patch = _;
  keeps = λ s e. e;
  applied = λ dir. refl;
  beside = λ e s. ground arith;
}
apply-IsPatch (routed id routing) now = record {
  patch = _;
  keeps = λ s e. e;
  applied = λ dir. refl;
  beside = λ e s. ground arith;
}

-- A call keeps every file named by the key of the intent that it holds.
pub apply-WellNamed :
    (c : Call) (now : ℕ) (dir : StateDir) → WellNamed dir → WellNamed (apply c now dir)
apply-WellNamed c now dir h =
    let p = apply-IsPatch c now in
    rw (p.applied dir) (upsert-WellNamed (target c) p.patch now dir h)

-- From a directory whose files are named by the keys of their intents, any calls lead to such a
-- directory.
pub apply_all-WellNamed :
    (cs : List (ℕ × Call)) (dir : StateDir) → WellNamed dir → WellNamed (apply_all cs dir)
unfolding apply_all
apply_all-WellNamed [] dir h = h
apply_all-WellNamed ((now, c) ∷ cs) dir h =
    apply_all-WellNamed cs (apply c now dir) (apply-WellNamed c now dir h)

read_state-apply :
    (c : Call) (now : ℕ) (dir : StateDir) (j : Text)
    → WellNamed dir
    → read_state j (apply c now dir) ≡ (
        if text_eq (key_of (target c)) (key_of j)
        then some
            (record ((apply-IsPatch c now).patch (before (target c) now dir)) { updated_at = now })
        else read_state j dir)
read_state-apply c now dir j h =
    let p = apply-IsPatch c now in
    rw (p.applied dir) (read_state-upsert (target c) j p.patch now dir p.keeps h)

-- A call about one intent leaves the state of every intent with another key as it was, in a
-- directory whose files are named by the keys of their intents.
pub read_state-apply_ne :
    (c : Call) (now : ℕ) (dir : StateDir) (j : Text)
    → WellNamed dir
    → key_of (target c) ≢ key_of j
    → read_state j (apply c now dir) ≡ read_state j dir
read_state-apply_ne c now dir j h ne =
    ground (arith, read_state-apply c now dir j h, text_eq_iff (key_of (target c)) (key_of j))

-- In a directory whose files are named by the keys of their intents, a call about settlement, alert
-- texts, routing or finality leaves what the proof side wrote of every intent as it was: its fields, its
-- vkey, its proof status and its reject reason.
pub apply-SameProof :
    (c : Call) (now : ℕ) (dir : StateDir) (j : Text) (s t : IntentState)
    → WellNamed dir
    → is_proof_side c ≡ false
    → read_state j dir ≡ some s
    → read_state j (apply c now dir) ≡ some t
    → SameProof s t
apply-SameProof c now dir j s t h side es et =
    let p = apply-IsPatch c now in
    ground (
      arith,
      read_state-apply c now dir j h,
      text_eq_iff (key_of (target c)) (key_of j),
      before-eq (target c) j now dir s,
      p.beside side (before (target c) now dir),
    )
