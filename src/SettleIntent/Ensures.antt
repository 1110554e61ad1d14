-- ===== src/SettleIntent/Ensures.antt =====
-- Rules for what the steps of orchestrator/settle_intent.js ensure, with the order of its acts.
use ma_at.Prelude.{ℕ, ◌<◌, ◌≡◌, List, [], ◌∷◌, Text}
use ma_at.SettleIntent.{
  Outcome, done, threw, exits, unfinished, Act, printed, heard_go, sent, confirmed, submitted,
  Process, Script, throw, ◌>>=◌, continue, act, Call, resolves, rejects, hangs, raced, with_timeout,
}
use ma_at.SettleIntent.Script.{settles, await_call}

-- The two acts before a payout is broadcast: its signature was printed, and the parent said to go on.
abbrev pub Follows : Text → List Act → Type 0
Follows sig (heard_go ∷ printed s ∷ acts) = s ≡ sig
Follows sig _ = ⊥

-- Every payout follows them. The transaction of submitIntent, which pays nobody, does not.
abbrev pub InOrder : List Act → Type 0
InOrder [] = Unit
InOrder (printed s ∷ acts) = InOrder acts
InOrder (heard_go ∷ acts) = InOrder acts
InOrder (sent sig ∷ acts) = Follows sig acts × InOrder acts
InOrder (confirmed sig ∷ acts) = InOrder acts
InOrder (submitted n ∷ acts) = InOrder acts

module _ {W : Type 0} where
  abbrev pub Holds : {A : Type 0} → (List Act → Type 0) → Outcome A × Process W → Type 0
  Holds Q (done a, p) = Q p.acts
  Holds Q (threw e, p) = InOrder p.acts
  Holds Q (exits code, p) = InOrder p.acts × (0 < code)
  Holds Q (unfinished, p) = InOrder p.acts

  -- What holds of the process when an action returns; if it does not, the acts are in order, and it
  -- exits with no code but a failure.
  pub record Ensures {A : Type 0} (Q : List Act → Type 0) (x : Outcome A × Process W) : Type 0 where
    pub holds : Holds Q x

module _ {W A : Type 0} where
  pub returns : (Q : List Act → Type 0) (a : A) (p : Process W) → Q p.acts → Ensures Q (done a, p)
  returns Q a p q = record { holds = q }

  pub throws :
      (Q : List Act → Type 0) (e : Text) (p : Process W)
      → InOrder p.acts
      → Ensures Q (throw {A = A} e p)
  unfolding throw
  throws Q e p o = record { holds = o }

module _ {W A B : Type 0} where
  pub bind-Ensures :
      (Q R : List Act → Type 0) (m : Script W A) (f : A → Script W B) (p : Process W)
      → Ensures Q (m p)
      → ((a : A) (p' : Process W) → Q p'.acts → Ensures R (f a p'))
      → Ensures R ((m >>= f) p)
  unfolding ◌>>=◌
  bind-Ensures Q R m f p h k = go (m p) h.holds
    where
      go : (x : Outcome A × Process W) → Holds Q x → Ensures R (continue x.0 f x.1)
      go (done a, p') q = k a p' q
      go (threw e, p') q = record { holds = q }
      go (exits code, p') q = record { holds = q }
      go (unfinished, p') q = record { holds = q }

module _ {W A : Type 0} where
  pub await_call-Ensures :
      (Q : List Act → Type 0) (call : W → Call A × W) (p : Process W)
      → InOrder p.acts
      → Q p.acts
      → Ensures Q (await_call call p)
  unfolding await_call
  await_call-Ensures Q call p o q = go (call p.outside).0
    where
      go : (r : Call A) → Ensures Q (settles r, record p { outside = (call p.outside).1 })
      go (resolves a) = record { holds = q }
      go (rejects e) = record { holds = o }
      go hangs = record { holds = o }

  pub with_timeout-Ensures :
      (Q : List Act → Type 0) (call : ℕ → W → Call A × W) (ms : ℕ) (label : Text) (p : Process W)
      → InOrder p.acts
      → Q p.acts
      → Ensures Q (with_timeout call ms label p)
  unfolding with_timeout
  with_timeout-Ensures Q call ms label p o q = go (call ms p.outside).0
    where
      go : (r : Call A) → Ensures Q (raced label ms r, record p { outside = (call ms p.outside).1 })
      go (resolves a) = record { holds = q }
      go (rejects e) = record { holds = o }
      go hangs = record { holds = o }

module _ {W : Type 0} where
  pub act-Ensures :
      (Q : List Act → Type 0) (a : Act) (p : Process W) → Q (a ∷ p.acts) → Ensures Q (act a p)
  unfolding act
  act-Ensures Q a p q = record { holds = q }

-- Exactly some acts, which are in order.
abbrev pub Just : List Act → List Act → Type 0
Just acts = λ now. now ≡ acts

module _ {W A : Type 0} where
  pub Ensures-map :
      (Q R : List Act → Type 0) (x : Outcome A × Process W)
      → ((acts : List Act) → Q acts → R acts)
      → Ensures Q x
      → Ensures R x
  Ensures-map Q R (done a, p) f h = record { holds = f p.acts h.holds }
  Ensures-map Q R (threw e, p) f h = record { holds = h.holds }
  Ensures-map Q R (exits code, p) f h = record { holds = h.holds }
  Ensures-map Q R (unfinished, p) f h = record { holds = h.holds }
