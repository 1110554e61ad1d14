-- ===== src/Settlement/Keeps.antt =====
-- Rules for what holds of the world after an action, one for each way to build an action.
use ma_at.Prelude.{◌≡◌, refl, ℕ, Bool, true, false, List, [], ◌∷◌, Text, if◌then◌else◌}
use ma_at.Settlement.World.{
  Reply, ok, threw, unfinished, Outside, World, Exec, pure, throw, out_of_fuel, catch, finally,
  continue, ◌>>=◌, modify, outward, move, sleep, Event, record_event,
}
use ma_at.Settlement.Chain.{observe}
use ma_at.Settlement.Slash.{for_each}

module _ {W : Type 0} (A : Type 0) (T : World W → Type 0) where
  pub keeps-throw : (e : Text) (w : World W) → T w → T (throw {A = A} e w).1
  unfolding throw
  keeps-throw e w h = h

  pub keeps-out_of_fuel : (w : World W) → T w → T (out_of_fuel {A = A} w).1
  unfolding out_of_fuel
  keeps-out_of_fuel w h = h

module _ {W A : Type 0} (T : World W → Type 0) where
  pub keeps-pure : (a : A) (w : World W) → T w → T (pure a w).1
  unfolding pure
  keeps-pure a w h = h

  pub keeps-outward :
      (call : W → Reply A × W) (w : World W) → ((o : W) → T (move o w)) → T (outward call w).1
  unfolding outward
  keeps-outward call w h = h (call w.outside).1

  pub keeps-catch :
      (m : Exec W A) (handler : Text → Exec W A) (w : World W)
      → T (m w).1
      → ((e : Text) (w' : World W) → T w' → T (handler e w').1)
      → T (catch m handler w).1
  unfolding catch
  keeps-catch m handler w h k = go (m w).0 (m w).1 h
    where
      go : (r : Reply A) (w' : World W) → T w' → T (catch (λ _. (r, w')) handler w).1
      go (ok a) w' h' = h'
      go (threw e) w' h' = k e w' h'
      go unfinished w' h' = h'

  pub keeps-finally :
      (m : Exec W A) (last : World W → World W) (w : World W)
      → T (m w).1
      → ((w' : World W) → T w' → T (last w'))
      → T (finally m last w).1
  unfolding finally
  keeps-finally m last w h k = k (m w).1 h

  pub keeps-if :
      (b : Bool) (m n : Exec W A) (w : World W)
      → (b ≡ true → T (m w).1)
      → (b ≡ false → T (n w).1)
      → T ((if b then m else n) w).1
  keeps-if true m n w km kn = km refl
  keeps-if false m n w km kn = kn refl

  -- The same where the branches are already run.
  pub keeps-branch :
      (b : Bool) (x y : Reply A × World W)
      → (b ≡ true → T x.1)
      → (b ≡ false → T y.1)
      → T (if b then x else y).1
  keeps-branch true x y kx ky = kx refl
  keeps-branch false x y kx ky = ky refl

module _ {W : Type 0} (T : World W → Type 0) where
  pub keeps-modify : (f : World W → World W) (w : World W) → T (f w) → T (modify f w).1
  unfolding modify
  keeps-modify f w h = h

  pub keeps-sleep :
      (out : Outside W) (ms : ℕ) (w : World W) → ((o : W) → T (move o w)) → T (sleep out ms w).1
  unfolding sleep
  keeps-sleep out ms w h = h (out.sleep ms w.outside)

module _ {W A B : Type 0} (T : World W → Type 0) where
  keeps-continue :
      (r : Reply A) (f : A → Exec W B) (w : World W)
      → T w
      → ((a : A) → r ≡ ok a → T (f a w).1)
      → T (continue r f w).1
  keeps-continue (ok a) f w h k = k a refl
  keeps-continue (threw e) f w h k = h
  keeps-continue unfinished f w h k = h

  pub keeps-bind :
      (m : Exec W A) (f : A → Exec W B) (w : World W)
      → T (m w).1
      → ((a : A) → (m w).0 ≡ ok a → T (f a (m w).1).1)
      → T ((m >>= f) w).1
  unfolding ◌>>=◌
  keeps-bind m f w h k = keeps-continue (m w).0 f (m w).1 h k

  pub keeps-bind-outward :
      (call : W → Reply A × W) (f : A → Exec W B) (w : World W)
      → ((o : W) → T (move o w))
      → ((a : A) (o : W) → call w.outside ≡ (ok a, o) → T (f a (move o w)).1)
      → T ((outward call >>= f) w).1
  unfolding outward
  keeps-bind-outward call f w h k =
      keeps-bind (outward call) f w (h (call w.outside).1)
        λ a e. k a (call w.outside).1 (λ i. (e i, (call w.outside).1))

module _ {W A B : Type 0} (T : World W → Type 0) where
  pub keeps-bind-observe :
      (call : W → Reply A × W) (event : A → Event) (f : A → Exec W B) (w : World W)
      → ((o : W) → T (move o w))
      → ((a : A) (o : W) → T (f a (record_event (event a) (move o w))).1)
      → T ((observe call event >>= f) w).1
  unfolding observe ◌>>=◌ outward modify pure
  keeps-bind-observe call event f w h k = go (call w.outside).0
    where
      o : W
      o = (call w.outside).1

      go :
          (r : Reply A)
          → T
              ((((λ w'. (r, move o w')) >>= λ a. modify (record_event (event a)) >>= λ _. pure a)
                  >>= f)
                w).1
      go (ok a) = k a o
      go (threw e) = h o
      go unfinished = h o

module _ {W A B C : Type 0} where
  bind-continue :
      (r : Reply A) (f : A → Exec W B) (g : B → Exec W C) (w : World W)
      → (continue r f >>= g) w ≡ continue r (λ a. f a >>= g) w
  unfolding ◌>>=◌
  bind-continue (ok a) f g w = refl
  bind-continue (threw e) f g w = refl
  bind-continue unfinished f g w = refl

  pub bind_assoc :
      (m : Exec W A) (f : A → Exec W B) (g : B → Exec W C) (w : World W)
      → (m >>= f >>= g) w ≡ (m >>= λ a. f a >>= g) w
  unfolding ◌>>=◌
  bind_assoc m f g w = bind-continue (m w).0 f g (m w).1

module _ {W A B : Type 0} (T : World W → Type 0) where
  pub keeps-bind-if :
      (b : Bool) (m n : Exec W A) (f : A → Exec W B) (w : World W)
      → (b ≡ true → T ((m >>= f) w).1)
      → (b ≡ false → T ((n >>= f) w).1)
      → T (((if b then m else n) >>= f) w).1
  keeps-bind-if true m n f w km kn = km refl
  keeps-bind-if false m n f w km kn = kn refl

  -- An action that looks at the world before it starts.
  pub keeps-bind-looking :
      (m : World W → Exec W A) (f : A → Exec W B) (w : World W)
      → T ((m w >>= f) w).1
      → T (((λ w'. m w' w') >>= f) w).1
  unfolding ◌>>=◌
  keeps-bind-looking m f w h = h

  pub keeps-bind-pure :
      (a : A) (f : A → Exec W B) (w : World W) → T (f a w).1 → T ((pure a >>= f) w).1
  unfolding ◌>>=◌ pure
  keeps-bind-pure a f w h = h

module _ {W B : Type 0} (T : World W → Type 0) where
  pub keeps-bind-sleep :
      (out : Outside W) (ms : ℕ) (f : Unit {0} → Exec W B) (w : World W)
      → ((o : W) → T (f tt (move o w)).1)
      → T ((sleep out ms >>= f) w).1
  unfolding ◌>>=◌ sleep
  keeps-bind-sleep out ms f w h = h (out.sleep ms w.outside)

  pub keeps-bind-modify :
      (g : World W → World W) (f : Unit {0} → Exec W B) (w : World W)
      → T (f tt (g w)).1
      → T ((modify g >>= f) w).1
  unfolding ◌>>=◌ modify
  keeps-bind-modify g f w h = h

module _ {W A : Type 0} (T : World W → Type 0) where
  -- The loop keeps what each round keeps.
  pub keeps-for_each :
      (body : A → Exec W Unit) (xs : List A) (w : World W)
      → ((x : A) (w' : World W) → T w' → T (body x w').1)
      → T w
      → T (for_each body xs w).1
  unfolding for_each
  keeps-for_each body [] w k h = keeps-pure T tt w h
  keeps-for_each body (x ∷ xs) w k h =
      keeps-bind T (body x) (λ _. for_each body xs) w (k x w h)
        λ a e. keeps-for_each body xs (body x w).1 k (k x w h)
