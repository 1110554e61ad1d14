-- ===== src/Listener/Final.antt =====
-- The finality poller of orchestrator/src/listener.ts, which goes over the directory's states one by one and
-- patches their files, against what it does to each file alone.
use ma_at.Prelude.{
  ℕ, ◌≡◌, refl, ◌∙◌, branch, ◌&&◌, Option, none, some, List, [], ◌∷◌, if◌then◌else◌, Text, text_eq,
  text_eq_iff, key_of, arith,
}
use ma_at.Prelude.Dict
use ma_at.Prelude.Dict.{Dict, IsDistinct}
use ma_at.IntentState.{
  IntentState, StateFile, state, unreadable, StateDir, parse, read_state, awaits_finality,
  list_pending_finality,
}
use ma_at.IntentState.Setters.{set_final}
use ma_at.IntentState.WellNamed.{WellNamed, before, before-eq, read_state-upsert, upsert-WellNamed}
use ma_at.Settlement.World.{Reply, ok, Outside, World, now_ms, move}
use ma_at.Settlement.Notes.{write_state}
use ma_at.Listener.Finalized.{finalized_at, finalize, finalize_found, due-finalizable}
use ma_at.Listener.Events.{arbitrum_sepolia, is_due, mark_final, poll_finality}

read_state-set_final :
    (id j : Text) (now : ℕ) (dir : StateDir)
    → WellNamed dir
    → read_state j (set_final id now dir) ≡ (
        if text_eq (key_of id) (key_of j)
        then some (finalized_at now (before id now dir))
        else read_state j dir)
unfolding set_final
read_state-set_final id j now dir h = read_state-upsert id j _ now dir (λ s e. e) h

set_final-WellNamed :
    (id : Text) (now : ℕ) (dir : StateDir) → WellNamed dir → WellNamed (set_final id now dir)
unfolding set_final
set_final-WellNamed id now dir h = upsert-WellNamed id _ now dir h

-- What the rest of the loop does to an intent's state, by the file of the intent.
abbrev by_file : ℕ → ℕ → Option StateFile → Option IntentState → Option IntentState
by_file now n none old = old
by_file now n (some unreadable) old = old
by_file now n (some (state s)) old =
    if awaits_finality arbitrum_sepolia s && is_due n s then some (finalized_at now s) else old

-- The directory holds what the rest of the list says.
abbrev Agree : StateDir → StateDir → Type 0
Agree rest dir =
    (id : Text) (s : IntentState)
    → Dict.get (key_of id) rest ≡ some (state s)
    → read_state id dir ≡ some s

Agree-tail :
    (name : Text) (f : StateFile) (rest dir : StateDir)
    → Dict.get name rest ≡ none
    → Agree ((name, f) ∷ rest) dir
    → Agree rest dir
unfolding Dict.get
Agree-tail name f rest dir once agree id s e =
    agree id s (ground (arith, text_eq_iff name (key_of id), once, e))

-- A round's patch of a state that is on file.
read_state-round :
    (s : IntentState) (id : Text) (now : ℕ) (dir : StateDir)
    → WellNamed dir
    → read_state s.intent_id dir ≡ some s
    → read_state id (set_final s.intent_id now dir) ≡ (
        if text_eq (key_of s.intent_id) (key_of id)
        then some (finalized_at now s)
        else read_state id dir)
read_state-round s id now dir h e =
    rw
      (
        read_state-set_final s.intent_id id now dir h,
        before-eq s.intent_id s.intent_id now dir s refl e,
      )
      refl

Agree-head :
    (name : Text) (s : IntentState) (rest dir : StateDir)
    → key_of s.intent_id ≡ name
    → Agree ((name, state s) ∷ rest) dir
    → read_state s.intent_id dir ≡ some s
unfolding Dict.get
Agree-head name s rest dir named agree =
    agree s.intent_id s (ground (arith, text_eq_iff name (key_of s.intent_id), named))

-- A round touches no file that is still to come.
Agree-round :
    (name : Text) (s : IntentState) (now : ℕ) (rest dir : StateDir)
    → key_of s.intent_id ≡ name
    → Dict.get name rest ≡ none
    → WellNamed dir
    → Agree ((name, state s) ∷ rest) dir
    → Agree rest (set_final s.intent_id now dir)
Agree-round name s now rest dir named once h agree id t e = ground (
  arith,
  read_state-round s id now dir h (Agree-head name s rest dir named agree),
  text_eq_iff (key_of s.intent_id) (key_of id),
  named,
  once,
  Agree-tail name (state s) rest dir once agree id t e,
  e,
)

module _ {W : Type 0} (out : Outside W) (n : ℕ) where
  -- What the loop leaves of an intent's state, from some world on, by the file it had.
  abbrev Leaves : Text → Option StateFile → World W → List IntentState → World W → Type 0
  Leaves id file w ss v =
      read_state id (mark_final out n ss v).states
      ≡ by_file (now_ms out w) n file (read_state id w.states)

  mark_final-lem :
      (rest : StateDir) (id : Text) (w : World W)
      → WellNamed rest
      → IsDistinct rest
      → WellNamed w.states
      → Agree rest w.states
      → Leaves id (Dict.get (key_of id) rest) w (list_pending_finality arbitrum_sepolia rest) w
  unfolding mark_final list_pending_finality Dict.get
  mark_final-lem [] id w names once h agree = refl
  mark_final-lem ((name, unreadable) ∷ rest) id w names once h agree = ground (
    arith,
    text_eq_iff name (key_of id),
    once.0,
    mark_final-lem rest id w names.1 once.1 h (Agree-tail name unreadable rest _ once.0 agree),
  )
  mark_final-lem ((name, state s) ∷ rest) id w names once h agree =
      let later = list_pending_finality arbitrum_sepolia rest in
      let file = Dict.get (key_of id) ((name, state s) ∷ rest) in
      let now = now_ms out w in
      let same = text_eq_iff name (key_of id) in
      let skipped =
        mark_final-lem rest id w names.1 once.1 h (Agree-tail name (state s) rest _ once.0 agree) in
      branch (λ ss. Leaves id file w ss w) (awaits_finality arbitrum_sepolia s) _ _
        (λ a.
          branch (Leaves id file w later) (is_due n s) _ _
            (λ d. ground (
              arith,
              same,
              once.0,
              a,
              d,
              names.0,
              read_state-round s id now w.states h (Agree-head name s rest w.states names.0 agree),
              mark_final-lem rest id (write_state out (set_final s.intent_id) w) names.1 once.1
                  (set_final-WellNamed s.intent_id now w.states h)
                  (Agree-round name s now rest w.states names.0 once.0 h agree),
            ))
            (λ d. ground (arith, same, once.0, d, skipped)))
        (λ a. ground (arith, same, once.0, a, skipped))

Agree-refl : (dir : StateDir) → Agree dir dir
unfolding read_state
Agree-refl dir id s e = rw e refl

by_file-finalize :
    (now n : ℕ) (id : Text) (dir : StateDir)
    → by_file now n (Dict.get (key_of id) dir) (read_state id dir)
      ≡ finalize_found now n (read_state id dir)
unfolding read_state finalize
by_file-finalize now n id dir = go (Dict.get (key_of id) dir)
  where
    go : (f : Option StateFile) → by_file now n f (parse f) ≡ finalize_found now n (parse f)
    go none = refl
    go (some unreadable) = refl
    go (some (state s)) = ground (arith, due-finalizable n s)

-- Once the chain has answered with its finalized block, the poll leaves every intent's state as it was,
-- but for those from Arbitrum Sepolia that await finality and whose block is not after it: these are
-- final from then on. This holds in a directory that has a file once, named by the key of its intent.
pub poll_finality-finalize :
    {W : Type 0} (out : Outside W) (get_finalized : W → Reply (Option ℕ) × W) (n : ℕ) (o : W)
    (id : Text) (w : World W)
    → get_finalized w.outside ≡ (ok (some n), o)
    → WellNamed w.states
    → IsDistinct w.states
    → read_state id (poll_finality out get_finalized w).states
      ≡ finalize_found (out.now_ms o) n (read_state id w.states)
unfolding poll_finality
poll_finality-finalize out get_finalized n o id w answered names once = rw answered (
    mark_final-lem out n w.states id (move o w) names once names (Agree-refl w.states)
    ∙ by_file-finalize (out.now_ms o) n id w.states)
