-- ===== src/Routing/Book.antt =====
-- ReservationBook of orchestrator/src/solver_routing.ts: the capital of each solver that a selection
-- has promised. The map of maps is kept as one; the clock is an argument.
use ma_at.Prelude.{
  ℕ, ◌+◌, Bool, true, false, ◌||◌, Option, none, some, [], ◌∷◌, if◌then◌else◌, leb, Text, key_of,
  addr_key, or_else,
}
use ma_at.Prelude.Dict
use ma_at.Prelude.Dict.{Dict}

pub record Reservation : Type 0 where
  pub wei : ℕ
  pub release_at_ms : Option ℕ  -- none while the collateral is unresolved

abbrev pub SolverReservations : Type 0
SolverReservations = Dict Reservation

abbrev pub Book : Type 0
Book = Dict SolverReservations

abbrev pub for_solver : Text → Book → SolverReservations
for_solver solver b = or_else (Dict.get (addr_key solver) b) []

unfoldable pub reserve : Text → Text → ℕ → Book → Book
reserve solver intent_id wei b =
    Dict.set (addr_key solver)
      (Dict.set (key_of intent_id) (record { wei = wei; release_at_ms = none })
        (for_solver solver b))
      b

-- The reservation of an intent with a solver, `bySolver.get(s)?.get(k)`.
unfoldable pub reservation : Text → Text → Book → Option Reservation
reservation solver intent_id b = Dict.get (key_of intent_id) (for_solver solver b)

abbrev pub is_held : Reservation → Bool
is_held r = elim r.release_at_ms [ none ↦ false | some t ↦ true ]

abbrev pub hold_found : Text → Text → ℕ → Option Reservation → Book → Book
hold_found solver intent_id until none b = b
hold_found solver intent_id until (some r) b =
    if is_held r
    then b
    else Dict.set (addr_key solver)
        (Dict.set (key_of intent_id) (record r { release_at_ms = some until })
          (for_solver solver b))
        b

unfoldable pub hold_for : Text → Text → ℕ → ℕ → Book → Book
unfolding reservation
hold_for solver intent_id hold_ms now b =
    hold_found solver intent_id (now + hold_ms) (reservation solver intent_id b) b

abbrev pub release_in : Text → Text → Option SolverReservations → Book → Book
release_in solver intent_id none b = b
release_in solver intent_id (some rs) b =
    Dict.set (addr_key solver) (Dict.delete (key_of intent_id) rs) b

unfoldable pub release : Text → Text → Book → Book
release solver intent_id b = release_in solver intent_id (Dict.get (addr_key solver) b) b

abbrev pub lapsed : ℕ → Reservation → Bool
lapsed now r = elim r.release_at_ms [ none ↦ false | some t ↦ leb t now ]

-- The loop of `reservedWei`: the lapsed reservations are dropped, the others added up.
unfoldable pub reserved_in : ℕ → SolverReservations → ℕ × SolverReservations
reserved_in now [] = (0, [])
reserved_in now ((id, r) ∷ rs) =
    let rest = reserved_in now rs in
    if lapsed now r then rest else (r.wei + rest.0, (id, r) ∷ rest.1)

abbrev pub reserved_found : Text → ℕ → Option SolverReservations → Book → ℕ × Book
reserved_found solver now none b = (0, b)
reserved_found solver now (some rs) b =
    ((reserved_in now rs).0, Dict.set (addr_key solver) (reserved_in now rs).1 b)

unfoldable pub reserved_wei : Text → ℕ → Book → ℕ × Book
unfolding reserved_in
reserved_wei solver now b = reserved_found solver now (Dict.get (addr_key solver) b) b

abbrev is_some : Option Reservation → Bool
is_some none = false
is_some (some r) = true

unfoldable pub has_intent : Text → Book → Bool
has_intent intent_id [] = false
has_intent intent_id ((s, rs) ∷ b) =
    is_some (Dict.get (key_of intent_id) rs) || has_intent intent_id b
