-- ===== src/IntentState/WellNamed.antt =====
-- The names of the state files and the keys of the intents that they hold.
use ma_at.Prelude.{
  ℕ, ◌≡◌, refl, inl, inr, some, [], ◌∷◌, arith, Text, key_of, text_eq, text_eq_iff, text_eq_refl,
  or_else, Option-cases, if◌then◌else◌,
}
use ma_at.Prelude.Dict
use ma_at.Prelude.Dict.{get-set}
use ma_at.IntentState.{
  IntentState, StateFile, state, unreadable, StateDir, read_state, write_state_file, blank_state,
  upsert,
}

abbrev Named : Text → StateFile → Type 0
Named name unreadable = Unit
Named name (state s) = key_of s.intent_id ≡ name

abbrev pub WellNamed : StateDir → Type 0
WellNamed [] = Unit
WellNamed ((name, f) ∷ dir) = Named name f × WellNamed dir

set-WellNamed :
    (s : IntentState) (name : Text) (dir : StateDir)
    → key_of s.intent_id ≡ name
    → WellNamed dir
    → WellNamed (Dict.set name (state s) dir)
unfolding Dict.set
set-WellNamed s name [] e h = (e, tt)
set-WellNamed s name ((i, f) ∷ dir) e h =
    ground (arith, text_eq_iff i name, set-WellNamed s name dir e h.1)

get-Named :
    (name : Text) (s : IntentState) (dir : StateDir)
    → WellNamed dir
    → Dict.get name dir ≡ some (state s)
    → key_of s.intent_id ≡ name
unfolding Dict.get
get-Named name s [] h e = cc
get-Named name s ((i, unreadable) ∷ dir) h e =
    ground (arith, text_eq_iff i name, get-Named name s dir h.1)
get-Named name s ((i, state t) ∷ dir) h e =
    ground (arith, text_eq_iff i name, get-Named name s dir h.1)

read_state-Named :
    (id : Text) (dir : StateDir) (s : IntentState)
    → WellNamed dir
    → read_state id dir ≡ some s
    → key_of s.intent_id ≡ key_of id
unfolding read_state
read_state-Named id dir s h e = ground (arith, get-Named (key_of id) s dir h)

abbrev pub before : Text → ℕ → StateDir → IntentState
before id now dir = or_else (read_state id dir) (blank_state id now)

before-Named :
    (id : Text) (now : ℕ) (dir : StateDir)
    → WellNamed dir
    → key_of (before id now dir).intent_id ≡ key_of id
unfolding blank_state
before-Named id now dir h = elim (Option-cases (read_state id dir)) [
  | inl e ↦ rw e
  | inr (s, e) ↦ rw e (read_state-Named id dir s h e)
]

pub upsert-WellNamed :
    (id : Text) (patch : IntentState → IntentState) (now : ℕ) (dir : StateDir)
    → WellNamed dir
    → WellNamed (upsert id patch now dir)
unfolding upsert write_state_file
upsert-WellNamed id patch now dir h = set-WellNamed _ _ dir refl h

-- The patch of a setter keeps the intent's identity.
abbrev pub KeepsName : Text → (IntentState → IntentState) → Type 0
KeepsName id patch =
    (s : IntentState) → key_of s.intent_id ≡ key_of id → key_of (patch s).intent_id ≡ key_of id

-- What is read after a patch: the patched state of this intent, and every other as it was.
pub read_state-upsert :
    (id j : Text) (patch : IntentState → IntentState) (now : ℕ) (dir : StateDir)
    → KeepsName id patch
    → WellNamed dir
    → read_state j (upsert id patch now dir) ≡ (
        if text_eq (key_of id) (key_of j)
        then some (record (patch (before id now dir)) { updated_at = now })
        else read_state j dir)
unfolding upsert write_state_file read_state
read_state-upsert id j patch now dir keeps h =
    let named = keeps (before id now dir) (before-Named id now dir h) in
    ground (
      arith,
      named,
      get-set (key_of (patch (before id now dir)).intent_id) (key_of j)
          (state (record (patch (before id now dir)) { updated_at = now })) dir,
    )

-- Two spellings of one key read one file.
pub before-eq :
    (id j : Text) (now : ℕ) (dir : StateDir) (s : IntentState)
    → key_of id ≡ key_of j
    → read_state j dir ≡ some s
    → before id now dir ≡ s
unfolding read_state
before-eq id j now dir s k e = rw (k, e)

-- What a patch leaves of the intent that it is about.
pub read_state-upsert_self :
    (id : Text) (patch : IntentState → IntentState) (now : ℕ) (dir : StateDir)
    → KeepsName id patch
    → WellNamed dir
    → read_state id (upsert id patch now dir)
      ≡ some (record (patch (before id now dir)) { updated_at = now })
read_state-upsert_self id patch now dir keeps h =
    ground (arith, read_state-upsert id id patch now dir keeps h, text_eq_refl (key_of id))
