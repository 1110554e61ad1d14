-- ===== src/Settlement/Ends.antt =====
-- Termination: what it takes of the clock and of the outside, and a rule for each way to build an action.
pub mod Confirming
pub mod Paying
pub mod Payouts
pub mod Polling
pub mod Sequencing
use ma_at.Prelude.{ℕ, ◌+◌, ◌≤◌, ◌≡◌, refl, Bool, true, false, if◌then◌else◌, arith, Text}
use ma_at.Settlement.World.{
  Reply, ok, threw, unfinished, Outside, Side, World, Exec, pure, throw, catch, ◌>>=◌, continue,
  modify, outward, move, sleep, now_ms, Event, record_event,
}
use ma_at.Settlement.Chain.{observe}

-- A reply that is not `unfinished`.
abbrev pub Answered : {A : Type 0} → Reply A → Type 0
Answered (ok a) = Unit
Answered (threw e) = Unit
Answered unfinished = ⊥

module _ {W : Type 0} (out : Outside W) where
  -- A call of the outside that answers, at the same time or later.
  abbrev pub Passes : {A : Type 0} → W → Reply A × W → Type 0
  Passes o x = Answered x.0 × (out.now_ms o ≤ out.now_ms x.1)

  -- The outside that the settlement relies on: Date.now() does not go back, setTimeout waits at least
  -- as long as it is told, and a request is answered or fails.
  pub record Ticks : Type 0 where
    pub sleeps : (ms : ℕ) (o : W) → out.now_ms o + ms ≤ out.now_ms (out.sleep ms o)
    pub balances : (solver : Text) (o : W) → Passes o (out.get_balance solver o)
    pub reads : (id : Text) (o : W) → Passes o (out.read_intent id o)
    pub signs : (from : Text) (tx : _) (o : W) → Passes o (out.sign from tx o)
    pub sends : (hash : Text) (o : W) → Passes o (out.send_and_wait hash o)

  -- An action has ended, at a time or later.
  abbrev pub Ends : {A : Type 0} → ℕ → Reply A × World W → Type 0
  Ends t x = Answered x.0 × (t ≤ now_ms out x.1)

  -- A change of the process's state alone.
  abbrev pub Still : (World W → World W) → Type 0
  Still f = (w : World W) → (f w).outside ≡ w.outside

module _ {W A : Type 0} (out : Outside W) (t : ℕ) where
  pub Ends-pure : (a : A) (w : World W) → t ≤ now_ms out w → Ends out t (pure a w)
  unfolding pure
  Ends-pure a w h = (tt, h)

  pub Ends-outward :
      (call : W → Reply A × W) (w : World W)
      → Passes out w.outside (call w.outside)
      → t ≤ now_ms out w
      → Ends out t (outward call w)
  unfolding outward
  Ends-outward call w p h = (p.0, omega (arith, p.1, h))

  pub Ends-catch :
      (m : Exec W A) (handler : Text → Exec W A) (w : World W)
      → Ends out t (m w)
      → ((e : Text) (w' : World W) → t ≤ now_ms out w' → Ends out t (handler e w'))
      → Ends out t (catch m handler w)
  unfolding catch
  Ends-catch m handler w h k = go (m w).0 (m w).1 h
    where
      go :
          (r : Reply A) (w' : World W)
          → Ends out t (r, w')
          → Ends out t (catch (λ _. (r, w')) handler w)
      go (ok a) w' h' = h'
      go (threw e) w' h' = k e w' h'.1
      go unfinished w' h' = h'

module _ {W : Type 0} (out : Outside W) (t : ℕ) where
  pub Ends-modify :
      (f : World W → World W) (w : World W)
      → Still out f
      → t ≤ now_ms out w
      → Ends out t (modify f w)
  unfolding modify
  Ends-modify f w still h = (tt, rw (still w) h)

module _ {W A B : Type 0} (out : Outside W) (t : ℕ) where
  pub Ends-bind :
      (m : Exec W A) (f : A → Exec W B) (w : World W)
      → Ends out t (m w)
      → ((a : A) (w' : World W) → t ≤ now_ms out w' → Ends out t (f a w'))
      → Ends out t ((m >>= f) w)
  unfolding ◌>>=◌
  Ends-bind m f w h k = go (m w).0 (m w).1 h
    where
      go : (r : Reply A) (w' : World W) → Ends out t (r, w') → Ends out t (continue r f w')
      go (ok a) w' h' = k a w' h'.1
      go (threw e) w' h' = h'
      go unfinished w' h' = elim h'.0 [ ]

module _ {W A B : Type 0} (out : Outside W) (t : ℕ) where
  -- A reading, and what follows it.
  pub Ends-bind-observe :
      (call : W → Reply A × W) (event : A → Event) (f : A → Exec W B) (w : World W)
      → Passes out w.outside (call w.outside)
      → t ≤ now_ms out w
      → ((a : A) (w' : World W) → t ≤ now_ms out w' → Ends out t (f a w'))
      → Ends out t ((observe call event >>= f) w)
  unfolding observe
  Ends-bind-observe call event f w p h k =
      Ends-bind out t _ f w
        (Ends-bind out t _ _ w (Ends-outward out t call w p h) λ a w' h'.
          Ends-bind out t _ _ w' (Ends-modify out t _ w' (λ v. refl) h')
            λ u w'' h''. Ends-pure out t a w'' h'')
        k

module _ {W A : Type 0} (out : Outside W) (t : ℕ) where
  pub Ends-if :
      (b : Bool) (x y : Reply A × World W)
      → (b ≡ true → Ends out t x)
      → (b ≡ false → Ends out t y)
      → Ends out t (if b then x else y)
  Ends-if true x y hx hy = hx refl
  Ends-if false x y hx hy = hy refl

  -- The same for a choice between two actions.
  pub Ends-choice :
      (b : Bool) (m n : Exec W A) (w : World W)
      → (b ≡ true → Ends out t (m w))
      → (b ≡ false → Ends out t (n w))
      → Ends out t ((if b then m else n) w)
  Ends-choice true m n w hm hn = hm refl
  Ends-choice false m n w hm hn = hn refl
