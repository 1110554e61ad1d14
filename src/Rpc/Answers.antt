-- ===== src/Rpc/Answers.antt =====
-- When a request of orchestrator/src/rpc_rotation.ts is answered, and how many HTTP calls it makes.
use ma_at.Prelude.{ℕ, ◌+◌, ◌≤◌, ◌<◌, ◌≡◌, refl, inl, inr, List, [], ◌∷◌, length, subst, sym}
use ma_at.Rpc.{url_at, cooled_at, rotation_order}
use ma_at.Rpc.Spin.{Tries}
use ma_at.Rpc.Order.{rotation_order_iff}
use ma_at.Rpc.Transport.{
  Attempt, result, failed, Failure, rpc_post, Rotation, Transport, post, note_failure, after_post,
  try_each, attempt_sweep, after_sweep, sweeps, request,
}

abbrev pub IsResult : {A : Type 0} → Attempt A → Type 0
IsResult (result r) = Unit
IsResult (failed e) = ⊥

module _ {W A : Type 0} (t : Transport W A) where
  -- A URL whose every call is answered with a result.
  abbrev pub Answers : ℕ → Type 0
  Answers j = (o : W) → IsResult (rpc_post (t.fetch (url_at t.urls j) o).0)

  try_each-IsResult :
      (order : List ℕ) (last : Failure) (s : Rotation W) (j : ℕ)
      → Answers j
      → Tries j order
      → IsResult (try_each t order last s).0
  unfolding try_each
  try_each-IsResult [] last s j a h = elim h [ ]
  try_each-IsResult (i ∷ order) last s j a h =
      go (λ f. try_each-IsResult order f (note_failure t i f (post t i s).1) j a)
        (rpc_post (t.fetch (url_at t.urls i) s.outside).0) refl h
    where
      go :
          ((f : Failure)
            → Tries j order
            → IsResult (try_each t order f (note_failure t i f (post t i s).1)).0)
          → (answer : Attempt A) → rpc_post (t.fetch (url_at t.urls i) s.outside).0 ≡ answer
          → Tries j (i ∷ order)
          → IsResult (after_post t i answer (try_each t order) (post t i s).1).0
      go rest (result r) e h' = tt
      go rest (failed f) e (inl p) = elim (subst IsResult e (subst Answers (sym p) a s.outside)) [ ]
      go rest (failed f) e (inr p) = rest f p

  -- A request is answered if some URL that does not cool down answers every call.
  pub request-IsResult :
      (s : Rotation W) (j : ℕ)
      → j < length t.urls
      → cooled_at t.urls s.health j ≤ t.now_ms s.outside
      → Answers j
      → IsResult (request t s).0
  unfolding request attempt_sweep
  request-IsResult s j lt free a = go (attempt_sweep t s).0 swept
    where
      swept : IsResult (attempt_sweep t s).0
      swept =
          try_each-IsResult (rotation_order t.urls s.next_start_index (t.now_ms s.outside) s.health)
            _ s j a
            ((rotation_order_iff t.urls s.next_start_index (t.now_ms s.outside) s.health j lt).1
              (inl free))

      go :
          (answer : Attempt A)
          → IsResult answer
          → IsResult (after_sweep t 0 answer (sweeps t 3 (0 + 1)) (attempt_sweep t s).1).0
      go (result r) h = tt
      go (failed f) h = elim h [ ]
