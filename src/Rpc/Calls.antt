-- ===== src/Rpc/Calls.antt =====
-- How many HTTP calls a request of orchestrator/src/rpc_rotation.ts makes.
use ma_at.Prelude.{
  ℕ, zero, suc, ◌+◌, ◌*◌, ◌≤◌, ◌<◌, ◌≡◌, refl, ◌∙◌, Bool, true, false, List, [], ◌∷◌, leb,
  if◌then◌else◌, keep_if, length, is_empty, length-keep_if-le, ap, Text, arith,
}
use ma_at.Rpc.{Health, url_at, spin, insert_by, sort_by, cooled_at, rotation_order}
use ma_at.Rpc.Order.{rotation_order-BestFirst, BestFirst}
use ma_at.Rpc.Transport.{
  Attempt, result, failed, Failure, rpc_post, Rotation, Transport, post, note_failure, after_post,
  try_each, attempt_sweep, after_sweep, backoff, undefined_error, sweeps, request,
  record_capacity_error,
}

abbrev pub IsFailed : {A : Type 0} → Attempt A → Type 0
IsFailed (result r) = ⊥
IsFailed (failed e) = Unit

module _ {W A : Type 0} (t : Transport W A) where
  -- The calls of a loop over an order: one for each URL if it fails, and no more if it does not.
  abbrev Counted : ℕ → ℕ → Rotation W → Attempt A × Rotation W → Type 0
  Counted low high s (r, s') =
      (length s'.posted ≤ length s.posted + high)
      × (IsFailed r → length s.posted + low ≤ length s'.posted)

  note_failure-posted :
      (i : ℕ) (f : Failure) (s : Rotation W) → (note_failure t i f s).posted ≡ s.posted
  unfolding note_failure record_capacity_error
  note_failure-posted i f s = ground arith

  try_each-Counted :
      (order : List ℕ) (last : Failure) (s : Rotation W)
      → Counted (length order) (length order) s (try_each t order last s)
  unfolding try_each
  try_each-Counted [] last s = omega arith
  try_each-Counted (i ∷ order) last s =
      go (λ f. try_each-Counted order f (note_failure t i f (post t i s).1))
        (rpc_post (t.fetch (url_at t.urls i) s.outside).0)
    where
      go :
          ((f : Failure)
            → Counted
                (length order)
                (length order)
                (note_failure t i f (post t i s).1)
                (try_each t order f (note_failure t i f (post t i s).1)))
          → (answer : Attempt A)
          → Counted
              (suc (length order))
              (suc (length order))
              s
              (after_post t i answer (try_each t order) (post t i s).1)
      go rest (result r) = (omega arith, λ h. elim h [ ])
      go rest (failed f) = (
        omega (arith, ap length (note_failure-posted i f (post t i s).1), (rest f).0),
        λ h. omega (arith, ap length (note_failure-posted i f (post t i s).1), (rest f).1 h),
      )

  length-spin : (n start left i : ℕ) → length (spin n start left i) ≡ left
  unfolding spin
  length-spin n start zero i = refl
  length-spin n start (suc left) i = ap suc (length-spin n start left (i + 1))

  length-insert_by :
      (key : ℕ → ℕ) (a : ℕ) (bs : List ℕ) → length (insert_by key a bs) ≡ suc (length bs)
  unfolding insert_by
  length-insert_by key a [] = refl
  length-insert_by key a (b ∷ bs) = ground (arith, length-insert_by key a bs)

  length-sort_by : (key : ℕ → ℕ) (xs : List ℕ) → length (sort_by key xs) ≡ length xs
  unfolding sort_by
  length-sort_by key [] = refl
  length-sort_by key (a ∷ rest) =
      length-insert_by key a (sort_by key rest) ∙ ap suc (length-sort_by key rest)

  -- An order has a URL at least, and each at most once.
  length-order-le :
      (urls : List Text) (start now : ℕ) (h : Health)
      → length (rotation_order urls start now h) ≤ length urls
  unfolding rotation_order
  length-order-le urls start now h =
      go (is_empty (keep_if (λ i. leb (cooled_at urls h i) now) order))
    where
      order : List ℕ
      order = spin (length urls) start (length urls) 0

      go :
          (b : Bool)
          → length (
              if b
              then sort_by (cooled_at urls h) order
              else keep_if (λ i. leb (cooled_at urls h i) now) order)
            ≤ length urls
      go true = omega (
        arith,
        length-sort_by (cooled_at urls h) order,
        length-spin (length urls) start (length urls) 0,
      )
      go false = omega (
        arith,
        length-keep_if-le (λ i. leb (cooled_at urls h i) now) order,
        length-spin (length urls) start (length urls) 0,
      )

  order_pos :
      (urls : List Text) (start now : ℕ) (h : Health)
      → 0 < length urls
      → 0 < length (rotation_order urls start now h)
  order_pos urls start now h pos =
      go (rotation_order urls start now h) (rotation_order-BestFirst urls start now h pos)
    where
      go : (xs : List ℕ) → BestFirst (cooled_at urls h) (length urls) now xs → 0 < length xs
      go [] b = elim b [ ]
      go (x ∷ xs) b = omega arith

  module _ (pos : 0 < length t.urls) where
    sweep-Counted : (s : Rotation W) → Counted 1 (length t.urls) s (attempt_sweep t s)
    unfolding attempt_sweep
    sweep-Counted s = (omega (arith, counted.0, most), λ h. omega (arith, counted.1 h, least))
      where
        order : List ℕ
        order = rotation_order t.urls s.next_start_index (t.now_ms s.outside) s.health

        most : length order ≤ length t.urls
        most = length-order-le t.urls s.next_start_index (t.now_ms s.outside) s.health

        least : 0 < length order
        least = order_pos t.urls s.next_start_index (t.now_ms s.outside) s.health pos

        counted : Counted (length order) (length order) s (attempt_sweep t s)
        counted = try_each-Counted order _ s

    suc_rounds : (left : ℕ) → suc left * length t.urls ≡ left * length t.urls + length t.urls
    suc_rounds left = grind arith

    backoff-posted : (attempt : ℕ) (s : Rotation W) → (backoff t attempt s).posted ≡ s.posted
    backoff-posted attempt s = ground arith

    sweeps-Counted :
        (left attempt : ℕ) (last : Failure) (s : Rotation W)
        → Counted left (left * length t.urls) s (sweeps t left attempt last s)
    unfolding sweeps
    sweeps-Counted zero attempt last s = omega arith
    sweeps-Counted (suc left) attempt last s =
        go (λ f. sweeps-Counted left (attempt + 1) f (backoff t attempt (attempt_sweep t s).1))
          (attempt_sweep t s).0 (sweep-Counted s)
      where
        go :
            ((f : Failure)
              → Counted left
                  (left * length t.urls)
                  (backoff t attempt (attempt_sweep t s).1)
                  (sweeps t left (attempt + 1) f (backoff t attempt (attempt_sweep t s).1)))
            → (answer : Attempt A) → Counted 1 (length t.urls) s (answer, (attempt_sweep t s).1)
            → Counted
                (suc left)
                (suc left * length t.urls)
                s
                (after_sweep t attempt answer (sweeps t left (attempt + 1)) (attempt_sweep t s).1)
        go rest (result r) c = (omega (arith, suc_rounds left, c.0), λ h. elim h [ ])
        go rest (failed f) c = (
          omega (arith, suc_rounds left, c.0, kept, (rest f).0),
          λ h. omega (arith, c.1 tt, kept, (rest f).1 h),
        )
          where
            kept :
                length (backoff t attempt (attempt_sweep t s).1).posted
                ≡ length (attempt_sweep t s).1.posted
            kept = ap length (backoff-posted attempt (attempt_sweep t s).1)

    -- A request makes four HTTP calls for each URL at most, and one that fails made four at least, one
    -- in each sweep.
    pub request-posts_bounds :
        (s : Rotation W)
        → (length (request t s).1.posted ≤ length s.posted + 4 * length t.urls)
          × (IsFailed (request t s).0 → length s.posted + 4 ≤ length (request t s).1.posted)
    unfolding request
    request-posts_bounds s = sweeps-Counted 4 0 (undefined_error t) s
