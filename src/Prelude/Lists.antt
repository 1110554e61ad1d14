-- ===== src/Prelude/Lists.antt =====
-- Lists measured by native numbers and filtered by Boolean tests.
use Prim.Native.Nat.{ℕ, suc, ◌+◌, ◌≤◌}
use mathlib.Core.Path.{◌≡◌, refl}
use mathlib.Core.Bool.{Bool, true, false}
use mathlib.Core.Option.{Option, none, some}
use mathlib.Core.List.{List, [], ◌∷◌, ◌++◌}
use mathlib.Core.Logic.{◌⊎◌, ◌↔◌, inl, inr}
use native.Mathlib.Omega.{arith}
use ma_at.Prelude.Tests.{if◌then◌else◌}

module _ {ℓ} {A : Type ℓ} where
  abbrev pub length : List A → ℕ
  length [] = 0
  length (x ∷ xs) = suc (length xs)

  -- `xs.length === 0`
  abbrev pub is_empty : List A → Bool
  is_empty [] = true
  is_empty (x ∷ xs) = false

  abbrev pub head? : List A → Option A
  head? [] = none
  head? (x ∷ xs) = some x

  unfoldable pub keep_if : (A → Bool) → List A → List A
  keep_if p [] = []
  keep_if p (x ∷ xs) = let rest = keep_if p xs in if p x then x ∷ rest else rest

  -- Every element of a list has a property: a predicate by recursion, which the tactics read.
  abbrev pub All {κ} : (A → Type κ) → List A → Type κ
  All P [] = Unit
  All P (x ∷ xs) = P x × All P xs

  -- Some element of a list has a property.
  abbrev pub Any : (A → Type 0) → List A → Type 0
  Any P [] = ⊥
  Any P (x ∷ xs) = P x ⊎ Any P xs

module _ {ℓ} {A : Type ℓ} where
  pub length-append : (xs ys : List A) → length (xs ++ ys) ≡ length xs + length ys
  length-append [] ys = omega arith
  length-append (x ∷ xs) ys = omega (arith, length-append xs ys)

  -- Two lists put together are empty if both are.
  pub append-empty_iff :
      {P Q : Type 0} (xs ys : List A)
      → (is_empty xs ≡ true) ↔ P
      → (is_empty ys ≡ true) ↔ Q
      → (is_empty (xs ++ ys) ≡ true) ↔ (P × Q)
  append-empty_iff [] ys p q = ((λ h. (p.0 refl, q.0 h)), λ b. q.1 b.1)
  append-empty_iff (x ∷ xs) ys p q = ((λ h. ground arith), λ b. p.1 b.0)

  pub append-empty :
      (xs ys : List A) → is_empty (xs ++ ys) ≡ true → (is_empty xs ≡ true) × (is_empty ys ≡ true)
  append-empty xs ys h = (append-empty_iff xs ys ((λ p. p), λ p. p) ((λ p. p), λ p. p)).0 h

  pub All-keep_if : (p : A → Bool) (xs : List A) → All (λ x. p x ≡ true) (keep_if p xs)
  unfolding keep_if
  All-keep_if p [] = tt
  All-keep_if p (x ∷ xs) = ground (arith, All-keep_if p xs)

  -- An element that has one property, where all have another, has both.
  pub Any-All : (P Q : A → Type 0) (xs : List A) → All Q xs → Any P xs → Any (λ x. P x × Q x) xs
  Any-All P Q [] h a = elim a [ ]
  Any-All P Q (x ∷ xs) h (inl p) = inl (p, h.0)
  Any-All P Q (x ∷ xs) h (inr a) = inr (Any-All P Q xs h.1 a)

  pub All-map {κ κ'} :
      (P : A → Type κ) (Q : A → Type κ') (xs : List A) → ((x : A) → P x → Q x) → All P xs → All Q xs
  All-map P Q [] f h = tt
  All-map P Q (x ∷ xs) f h = (f x h.0, All-map P Q xs f h.1)

  pub Any-map : (P Q : A → Type 0) (xs : List A) → ((x : A) → P x → Q x) → Any P xs → Any Q xs
  Any-map P Q [] f a = elim a [ ]
  Any-map P Q (x ∷ xs) f (inl p) = inl (f x p)
  Any-map P Q (x ∷ xs) f (inr a) = inr (Any-map P Q xs f a)

  -- What follows from a property of any element follows if some element has it.
  pub Any-elim : (P : A → Type 0) (R : Type 0) (xs : List A) → ((x : A) → P x → R) → Any P xs → R
  Any-elim P R [] f a = elim a [ ]
  Any-elim P R (x ∷ xs) f (inl p) = f x p
  Any-elim P R (x ∷ xs) f (inr a) = Any-elim P R xs f a

module _ {ℓ} {A : Type ℓ} where
  -- What stands in a filtered list stood in the list, and passes the test.
  pub keep_if-Any :
      (P : A → Type 0) (p : A → Bool) (xs : List A)
      → Any P (keep_if p xs)
      → Any (λ x. P x × (p x ≡ true)) xs
  unfolding keep_if
  keep_if-Any P p [] a = elim a [ ]
  keep_if-Any P p (x ∷ xs) a = go (keep_if-Any P p xs) (p x) refl a
    where
      go :
          (Any P (keep_if p xs) → Any (λ x. P x × (p x ≡ true)) xs)
          → (b : Bool) → p x ≡ b
          → Any P (if b then x ∷ keep_if p xs else keep_if p xs)
          → Any (λ x. P x × (p x ≡ true)) (x ∷ xs)
      go rest true e (inl h) = inl (h, e)
      go rest true e (inr h) = inr (rest h)
      go rest false e h = inr (rest h)

  pub Any-keep_if :
      (P : A → Type 0) (p : A → Bool) (xs : List A)
      → Any (λ x. P x × (p x ≡ true)) xs
      → Any P (keep_if p xs)
  unfolding keep_if
  Any-keep_if P p [] a = elim a [ ]
  Any-keep_if P p (x ∷ xs) (inl h) = rw h.1 (inl h.0)
  Any-keep_if P p (x ∷ xs) (inr h) = go (Any-keep_if P p xs h) (p x)
    where
      go : Any P (keep_if p xs) → (b : Bool) → Any P (if b then x ∷ keep_if p xs else keep_if p xs)
      go rest true = inr rest
      go rest false = rest

  -- A filter that leaves nothing has refused everything.
  pub keep_if-empty :
      (p : A → Bool) (xs : List A) → is_empty (keep_if p xs) ≡ true → All (λ x. p x ≡ false) xs
  unfolding keep_if
  keep_if-empty p [] h = tt
  keep_if-empty p (x ∷ xs) h = ground (arith, h, keep_if-empty p xs)

  pub length-keep_if-le : (p : A → Bool) (xs : List A) → length (keep_if p xs) ≤ length xs
  unfolding keep_if
  length-keep_if-le p [] = omega arith
  length-keep_if-le p (x ∷ xs) = ground (arith, length-keep_if-le p xs)
