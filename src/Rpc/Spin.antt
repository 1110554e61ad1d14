-- ===== src/Rpc/Spin.antt =====
-- The round of indices of rotationOrder of orchestrator/src/rpc_rotation.ts: it has every index, and no
-- other.
use ma_at.Prelude.{
  ℕ, zero, suc, ◌+◌, ◌-◌, ◌%◌, ◌≤◌, ◌<◌, ◌≡◌, sym, ap, ◌∙◌, inl, inr, true, false, List, leb,
  if◌then◌else◌, All, Any, arith, Bool-cases,
}
use native.Mathlib.Nat.{mod-eq_of_lt, mod-add-mod, add-mod_right}
use ma_at.Rpc.{spin}

-- An index stands in an order.
abbrev pub Tries : ℕ → List ℕ → Type 0
Tries j order = Any (λ i. i ≡ j) order

pub spin-lt : (n start left i : ℕ) → 0 < n → All (λ j. j < n) (spin n start left i)
unfolding spin
spin-lt n start zero i h = tt
spin-lt n start (suc left) i h = (grind arith, spin-lt n start left (i + 1) h)

-- What is at a distance of the start.
spin-at :
    (n start left i k : ℕ) → i ≤ k → k < i + left → Tries ((start + k) % n) (spin n start left i)
unfolding spin
spin-at n start zero i k le lt = absurd (omega (arith, le, lt))
spin-at n start (suc left) i k le lt = elim (Bool-cases (leb k i)) [
  | inl e ↦ inl (ap (λ x. (start + x) % n) (ground (arith, le, e)))
  | inr e ↦ inr (spin-at n start left (i + 1) k (ground (arith, le, e)) (omega (arith, lt)))
]

mod_bound : (n start j : ℕ) → j < n → start % n < n
mod_bound n start j h = grind arith

-- How far an index is from the start.
abbrev distance : ℕ → ℕ → ℕ → ℕ
distance n start j = if leb (start % n) j then j - start % n else j + n - start % n

distance-lt : (n start j : ℕ) → j < n → distance n start j < n
distance-lt n start j h = grind arith

-- The two ways to come round to an index.
wraps : (n r j : ℕ) → r < n → j < n → (r + (if leb r j then j - r else j + n - r)) % n ≡ j
wraps n r j hr hj = elim (Bool-cases (leb r j)) [
  | inl e ↦ rw e (ap (λ x. x % n) (the_index e) ∙ mod-eq_of_lt hj)
  | inr e ↦ rw e (ap (λ x. x % n) (one_round e) ∙ add-mod_right j n ∙ mod-eq_of_lt hj)
]
  where
    the_index : leb r j ≡ true → r + (j - r) ≡ j
    the_index e = ground (arith, e)

    one_round : leb r j ≡ false → r + (j + n - r) ≡ j + n
    one_round e = ground (arith, e, hr)

distance_lem : (n start j : ℕ) → j < n → (start + distance n start j) % n ≡ j
distance_lem n start j h =
    sym (mod-add-mod start n (distance n start j)) ∙ wraps n (start % n) j (mod_bound n start j h) h

pub spin-Tries : (n start j : ℕ) → j < n → Tries j (spin n start n 0)
spin-Tries n start j h = rw (← distance_lem n start j h) (
    spin-at n start n 0 (distance n start j) (omega arith) (omega (arith, distance-lt n start j h)))
