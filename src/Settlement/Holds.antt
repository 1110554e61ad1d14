-- ===== src/Settlement/Holds.antt =====
-- The reservation book along the settlement: predicates on the book, and the changes that leave it alone.
pub mod Confirming
pub mod Sequencing
use ma_at.Prelude.{ℕ, ◌≡◌, refl, Bool, Option, none, some, Text}
use ma_at.ArbitrumLedger.{RoutingDecision}
use ma_at.Routing.Book.{Book}
use ma_at.Settlement.World.{Outside, World, Exec, ◌>>=◌}
use ma_at.Settlement.Notes.{mirror_reason, mirror_routing}
use ma_at.Settlement.Keeps.{keeps-bind}

-- The book and the flag of the dispatch under way.
abbrev pub Held : {W : Type 0} → (Book → Bool → Type 0) → World W → Type 0
Held I w = I w.book w.reservation_resolved

-- A change of the process that leaves them alone.
abbrev pub Leaves : {W : Type 0} → (World W → World W) → Type 0
Leaves {W} f =
    (w : World W) → ((f w).book ≡ w.book) × ((f w).reservation_resolved ≡ w.reservation_resolved)

module _ {W A B : Type 0} (T : World W → Type 0) where
  -- What holds after the first action holds of the world that the second starts from.
  pub holds-bind :
      (m : Exec W A) (f : A → Exec W B) (w : World W)
      → T (m w).1
      → ((a : A) (w' : World W) → T w' → T (f a w').1)
      → T ((m >>= f) w).1
  holds-bind m f w h k = keeps-bind T m f w h λ a e. k a (m w).1 h

module _ {W : Type 0} (out : Outside W) where
  pub mirror_routing-Leaves :
      (id : Text) (r : Option RoutingDecision) → Leaves (mirror_routing out id r)
  unfolding mirror_routing
  mirror_routing-Leaves id none w = (refl, refl)
  mirror_routing-Leaves id (some r) w = go r.routing_reason
    where
      go :
          (reason : Option Text)
          → ((mirror_reason out id r reason w).book ≡ w.book)
            × ((mirror_reason out id r reason w).reservation_resolved ≡ w.reservation_resolved)
      go none = (refl, refl)
      go (some reason) = (refl, refl)

-- A change that leaves the book and the flag alone keeps what holds of them.
pub Leaves-Held :
    {W : Type 0} (I : Book → Bool → Type 0) (f : World W → World W) (w : World W)
    → Leaves f
    → Held I w
    → Held I (f w)
Leaves-Held I f w leaves h = rw ((leaves w).0, (leaves w).1) h
