-- ===== src/Routing/Once.antt =====
-- What dispatchArbitrumSettlement of orchestrator/src/solver_routing.ts makes of its reservation.
use ma_at.Prelude.{ℕ, ◌≡◌, refl, Bool, true, false, Option, if◌then◌else◌, arith, Text}
use ma_at.ProofOutput.{ProofOutputJson}
use ma_at.Routing.Book.{Book, reservation, hold_for, release}
use ma_at.Routing.Decide.{Why, selected, SelectionResult}
use ma_at.Routing.Dispatch.{
  DispatchDeps, release_reservation, note_outcome, post_and_note, settlement_deps, settle_with,
}
use ma_at.Settlement.World.{
  Outside, Side, Reply, SolanaPayoutResult, TxOutcome, World, finally, now_ms,
}
use ma_at.Settlement.Chain.{Config, Deps, OnSigned, build_real_deps, send_post_collateral}
use ma_at.Settlement.Holds.Confirming.{sign_and_send-Held}
use ma_at.Settlement.Keeps.{keeps-catch, keeps-bind-modify, keeps-pure, keeps-throw}
use ma_at.Settlement.Holds.{Held, Leaves, Leaves-Held, holds-bind}
use ma_at.Settlement.Holds.Sequencing.{sequence-Held}
use ma_at.Routing.Release.{Resolved, release-Resolved, hold_for-Resolved}

module _ {W : Type 0} (out : Outside W) (cfg : Config) (d : DispatchDeps W) where
  -- A postCollateral that has nothing to do with the book.
  pub record Apart (deps : Deps W) : Type 0 where
    pub at :
        (id : Text) (value : ℕ) (on_signed : OnSigned W)
        → ((hash : Text) → Leaves (on_signed hash))
        → Leaves (λ v. (deps.post_collateral id value on_signed v).1)

  -- What holds while a dispatch is under way: a reservation that is marked as resolved is so.
  abbrev Marked : Text → Text → Book → Bool → Type 0
  Marked solver id b flag = flag ≡ true → Resolved (reservation solver id b)

  release-Marked :
      (solver id : Text) (w : World W)
      → Held (Marked solver id) w
      → Held (Marked solver id) (release_reservation out d solver id w)
  unfolding release_reservation
  release-Marked solver id w h = go w.reservation_resolved refl
    where
      go :
          (b : Bool)
          → w.reservation_resolved ≡ b
          → Held (Marked solver id) (
              if b
              then w
              else record w { reservation_resolved = true; book = release solver id w.book })
      go true e = h
      go false e = λ e'. release-Resolved solver id w.book

  -- At the end the flag need not be asked.
  released-Resolved :
      (solver id : Text) (w : World W)
      → Held (Marked solver id) w
      → Resolved (reservation solver id (release_reservation out d solver id w).book)
  unfolding release_reservation
  released-Resolved solver id w h = go w.reservation_resolved refl
    where
      go :
          (b : Bool)
          → w.reservation_resolved ≡ b
          → Resolved (
              reservation solver id
                (if b then w else record w {
                  reservation_resolved = true;
                  book = release solver id w.book;
                }).book)
      go true e = h e
      go false e = release-Resolved solver id w.book

  note-Marked :
      (solver id : Text) (outcome : TxOutcome) (w : World W)
      → Held (Marked solver id) w
      → Held (Marked solver id) (note_outcome out d solver id outcome w)
  unfolding note_outcome
  note-Marked solver id outcome w h = go outcome.ok
    where
      kept : World W
      kept = record w {
        reservation_resolved = true;
        book = hold_for solver id d.reservation_hold_ms (now_ms out w) w.book;
      }

      go :
          (b : Bool)
          → Held (Marked solver id) (if b then kept else release_reservation out d solver id w)
      go true = λ e. hold_for-Resolved solver id d.reservation_hold_ms (now_ms out w) w.book
      go false = release-Marked solver id w h

  post-Marked :
      (solver id : Text) (base : Deps W) (i : Text) (value : ℕ) (on_signed : OnSigned W)
      (w : World W)
      → Apart base
      → ((hash : Text) → Leaves (on_signed hash))
      → Held (Marked solver id) w
      → Held (Marked solver id) (post_and_note out d solver id base i value on_signed w).1
  unfolding post_and_note
  post-Marked solver id base i value on_signed w apart leaves h =
      holds-bind T _ _ w
        (keeps-catch T _ _ w
          (Leaves-Held (Marked solver id) (λ v. (base.post_collateral i value on_signed v).1) w
            (apart.at i value on_signed leaves) h)
          (λ e w' h'.
            keeps-bind-modify T _ _ w'
              (keeps-throw TxOutcome T e _ (release-Marked solver id w' h'))))
        λ outcome w1 h1.
          keeps-bind-modify T _ _ w1 (keeps-pure T outcome _ (note-Marked solver id outcome w1 h1))
    where
      T : World W → Type 0
      T = Held (Marked solver id)

  -- With deps whose postCollateral has nothing to do with the book, a dispatch that has selected a
  -- solver does not leave its reservation pending, however the sequence ends: it is gone, or it lapses
  -- at some time.
  pub settle_with-Resolved :
      (fuel : ℕ) (id : Text) (json : ProofOutputJson) (selection : SelectionResult) (solver : Text)
      (tier : Option ℕ) (why : Why) (w : World W)
      → Apart (d.build_settlement_deps solver)
      → Resolved (
          reservation solver id
            (settle_with out cfg d fuel id json selection (selected solver tier why) w).1.book)
  unfolding settle_with settlement_deps finally
  settle_with-Resolved fuel id json selection solver tier why w apart =
      keeps-bind-modify (λ v. Resolved (reservation solver id v.book)) _ _ w
        (released-Resolved solver id _ (
          sequence-Held out cfg _ (Marked solver id) fuel id json _
            (λ value on_signed w' leaves h.
              post-Marked solver id (d.build_settlement_deps solver) id value on_signed w' apart
                leaves h)
            (λ e. ground (arith, e))))

-- The deps of a configured solver have nothing to do with the book.
pub build_real_deps-Apart :
    {W : Type 0} (out : Outside W) (cfg : Config) (d : DispatchDeps W) (solver : Text)
    (pay : Text → Side W → Reply SolanaPayoutResult × Side W)
    → Apart out cfg d (build_real_deps out cfg solver pay)
unfolding build_real_deps send_post_collateral
build_real_deps-Apart out cfg d solver pay = record {
  at = λ id value on_signed leaves w.
      sign_and_send-Held out (λ b flag. (b ≡ w.book) × (flag ≡ w.reservation_resolved)) solver _
        on_signed w leaves (refl, refl);
}
