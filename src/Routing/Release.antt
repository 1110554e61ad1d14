-- ===== src/Routing/Release.antt =====
-- ReservationBook of orchestrator/src/solver_routing.ts: what release and holdFor make of a reservation.
use ma_at.Prelude.{
  ℕ, ◌+◌, ◌≡◌, ◌≢◌, refl, Bool, true, false, Option, none, some, if◌then◌else◌, arith, Text,
  text_eq_refl, key_of, addr_key,
}
use ma_at.Prelude.Dict
use ma_at.Prelude.Dict.{Dict, get-set, get-delete}
use ma_at.Routing.Book.{
  Reservation, SolverReservations, Book, reservation, for_solver, is_held, hold_for, hold_found,
  release, release_in,
}

-- A reservation that is gone, or that lapses at some time.
abbrev pub Resolved : Option Reservation → Type 0
Resolved none = Unit
Resolved (some r) = r.release_at_ms ≢ none

-- What stands in a solver's own map.
reservation-set :
    (solver id : Text) (rs : SolverReservations) (b : Book)
    → reservation solver id (Dict.set (addr_key solver) rs b) ≡ Dict.get (key_of id) rs
unfolding reservation
reservation-set solver id rs b = rw (get-set, text_eq_refl) refl

pub release-Resolved :
    (solver id : Text) (b : Book) → Resolved (reservation solver id (release solver id b))
unfolding release reservation Dict.get
release-Resolved solver id b = go (Dict.get (addr_key solver) b) refl
  where
    nothing : (b : Book) → Dict.get (addr_key solver) b ≡ none → reservation solver id b ≡ none
    nothing b e = rw e refl

    go :
        (found : Option SolverReservations)
        → Dict.get (addr_key solver) b ≡ found
        → Resolved (reservation solver id (release_in solver id found b))
    go none e = rw (nothing b e) tt
    go (some rs) e =
        rw (reservation-set solver id (Dict.delete (key_of id) rs) b, get-delete, text_eq_refl) tt

held-some : (r : Reservation) → is_held r ≡ true → r.release_at_ms ≢ none
held-some r h = ground (arith, h)

pub hold_for-Resolved :
    (solver id : Text) (ms now : ℕ) (b : Book)
    → Resolved (reservation solver id (hold_for solver id ms now b))
unfolding hold_for
hold_for-Resolved solver id ms now b = go (reservation solver id b) refl
  where
    until : Reservation → SolverReservations
    until r =
        Dict.set (key_of id) (record r { release_at_ms = some (now + ms) }) (for_solver solver b)

    set-Resolved : (r : Reservation) → Resolved (Dict.get (key_of id) (until r))
    set-Resolved r = rw (get-set, text_eq_refl) (λ e. ground (arith, e))

    branch :
        (r : Reservation)
        → reservation solver id b ≡ some r
        → (held : Bool) → is_held r ≡ held
        → Resolved
            (reservation solver id (if held then b else Dict.set (addr_key solver) (until r) b))
    branch r e true q = rw e (held-some r q)
    branch r e false q = rw (reservation-set solver id (until r) b) (set-Resolved r)

    go :
        (found : Option Reservation)
        → reservation solver id b ≡ found
        → Resolved (reservation solver id (hold_found solver id (now + ms) found b))
    go none e = rw e tt
    go (some r) e = branch r e (is_held r) refl
