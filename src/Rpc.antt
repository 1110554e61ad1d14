-- ===== src/Rpc.antt =====
-- orchestrator/src/rpc_rotation.ts: the health table of the RPC URLs and the order in which a sweep tries
-- them.
pub mod Transport
pub mod Spin
pub mod Order
pub mod Answers
pub mod Calls
use ma_at.Prelude.{
  ℕ, ◌+◌, ◌*◌, ◌%◌, suc, zero, Bool, true, false, ◌&&◌, ◌||◌, ◌==◌, Option, none, some, List, [],
  ◌∷◌, ◌++◌, ltb, leb, if◌then◌else◌, keep_if, length, is_empty, or_else, Text, text, map, includes,
  to_lower, show_ℕ,
}
use ma_at.Prelude.Dict
use ma_at.Prelude.Dict.{Dict}
use ma_at.Prelude.Int.{ℤ, pos, negsuc}

-- healthByUrl: until when a URL cools down. One that is missing reads as 0.
abbrev pub Health : Type 0
Health = Dict ℕ

unfoldable pub cool_down_until_ms : Text → Health → ℕ
cool_down_until_ms url h = or_else (Dict.get url h) 0

unfoldable pub is_capacity_error : Text → Bool
is_capacity_error message =
    let msg = map to_lower message in
    includes (text "429") msg
    || includes (text "capacity") msg
    || includes (text "rate limit") msg
    || includes (text "too many requests") msg

unfoldable pub url_at : List Text → ℕ → Text
url_at [] i = []
url_at (u ∷ urls) zero = u
url_at (u ∷ urls) (suc i) = url_at urls i

-- The indices from `i` on, as many as `left`, turned round by the start.
unfoldable pub spin : ℕ → ℕ → ℕ → ℕ → List ℕ
spin n start zero i = []
spin n start (suc left) i = ((start + i) % n) ∷ spin n start left (i + 1)

unfoldable pub insert_by : (ℕ → ℕ) → ℕ → List ℕ → List ℕ
insert_by key a [] = a ∷ []
insert_by key a (b ∷ bs) =
    let rest = insert_by key a bs in if ltb (key b) (key a) then b ∷ rest else a ∷ b ∷ bs

unfoldable pub sort_by : (ℕ → ℕ) → List ℕ → List ℕ
unfolding insert_by
sort_by key [] = []
sort_by key (a ∷ rest) = insert_by key a (sort_by key rest)

abbrev pub cooled_at : List Text → Health → ℕ → ℕ
cooled_at urls h i = cool_down_until_ms (url_at urls i) h

abbrev pub or_sorted : (ℕ → ℕ) → List ℕ → List ℕ → List ℕ
or_sorted key order available = if is_empty available then sort_by key order else available

unfoldable pub rotation_order : List Text → ℕ → ℕ → Health → List ℕ
unfolding spin
rotation_order urls start now h =
    let order = spin (length urls) start (length urls) 0 in
    or_sorted (cooled_at urls h) order (keep_if (λ i. leb (cooled_at urls h i) now) order)
