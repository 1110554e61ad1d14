-- ===== src/Routing/Capital.antt =====
-- How much of a solver's balance the reservation book holds, along the operations on it.
use ma_at.Prelude.{
  ℕ, ◌+◌, ◌≤◌, ◌≡◌, refl, Option, none, some, [], ◌∷◌, if◌then◌else◌, arith, Text, text_eq,
  text_eq_iff, key_of, addr_key, or_else,
}
use ma_at.Prelude.Dict
use ma_at.Prelude.Dict.{Dict, get-set}
use ma_at.Routing.Book.{
  Reservation, SolverReservations, Book, reserve, reserved_in, reserved_found, reserved_wei,
}

-- The capital that the book holds back of a solver, at a time.
unfoldable pub held : Text → ℕ → Book → ℕ
held solver now b = (reserved_wei solver now b).0

-- That of a solver's own map.
abbrev of_map : ℕ → Option SolverReservations → ℕ
of_map now none = 0
of_map now (some rs) = (reserved_in now rs).0

held-of_map :
    (solver : Text) (now : ℕ) (b : Book)
    → held solver now b ≡ of_map now (Dict.get (addr_key solver) b)
unfolding held reserved_wei
held-of_map solver now b = ground arith

-- What is dropped counted nothing.
purged :
    (now : ℕ) (rs : SolverReservations)
    → (reserved_in now (reserved_in now rs).1).0 ≡ (reserved_in now rs).0
unfolding reserved_in
purged now [] = refl
purged now ((id, r) ∷ rs) = ground (arith, purged now rs)

set-le :
    (now : ℕ) (k : Text) (r : Reservation) (rs : SolverReservations)
    → (reserved_in now (Dict.set k r rs)).0 ≤ r.wei + (reserved_in now rs).0
unfolding reserved_in Dict.set
set-le now k r [] = ground arith
set-le now k r ((id, q) ∷ rs) = ground (arith, set-le now k r rs)

-- A map put in for one solver counts for that solver.
of_map-set :
    (now : ℕ) (s t : Text) (rs : SolverReservations) (b : Book)
    → of_map now (Dict.get s (Dict.set t rs b))
      ≡ (if text_eq t s then (reserved_in now rs).0 else of_map now (Dict.get s b))
of_map-set now s t rs b = ground (arith, get-set t s rs b)

look-le :
    (now : ℕ) (s t : Text) (found : Option SolverReservations) (b : Book)
    → Dict.get (addr_key t) b ≡ found
    → held s now (reserved_found t now found b).1 ≡ held s now b
look-le now s t none b e = refl
look-le now s t (some rs) b e = ground (
  arith,
  held-of_map s now b,
  held-of_map s now (Dict.set (addr_key t) (reserved_in now rs).1 b),
  of_map-set now (addr_key s) (addr_key t) (reserved_in now rs).1 b,
  text_eq_iff (addr_key t) (addr_key s),
  purged now rs,
)

-- To look at what one solver has left changes nothing for any solver.
pub held-reserved_wei :
    (s t : Text) (now : ℕ) (b : Book) → held s now (reserved_wei t now b).1 ≡ held s now b
unfolding reserved_wei
held-reserved_wei s t now b = look-le now s t (Dict.get (addr_key t) b) b refl

for_solver-held :
    (now : ℕ) (s : Text) (b : Book)
    → (reserved_in now (or_else (Dict.get (addr_key s) b) [])).0 ≡ held s now b
unfolding reserved_in
for_solver-held now s b = ground (arith, held-of_map s now b)

held-set :
    (now : ℕ) (s : Text) (rs : SolverReservations) (b : Book)
    → held s now (Dict.set (addr_key s) rs b) ≡ (reserved_in now rs).0
held-set now s rs b = ground (
  arith,
  held-of_map s now (Dict.set (addr_key s) rs b),
  of_map-set now (addr_key s) (addr_key s) rs b,
  text_eq_iff (addr_key s) (addr_key s),
)

-- A reservation adds its amount at most.
pub held-reserve-le :
    (s id : Text) (wei now : ℕ) (b : Book) → held s now (reserve s id wei b) ≤ wei + held s now b
unfolding reserve
held-reserve-le s id wei now b = rw (held-set now s _ b) (
    omega (
      arith,
      set-le now (key_of id) (record { wei = wei; release_at_ms = none })
          (or_else (Dict.get (addr_key s) b) []),
      for_solver-held now s b,
    ))
