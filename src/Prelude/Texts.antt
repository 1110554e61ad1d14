-- ===== src/Prelude/Texts.antt =====
-- Texts as lists of character codes, and the two normal forms that the orchestrator compares
-- identifiers by: `keyOf` of an intent identifier and `addrKey` of an address.
use Prim.Native.Nat.{ℕ, zero, suc, ◌+◌, ◌-◌, ◌*◌, ◌/◌, ◌%◌, ◌<◌}
use Prim.Native.Char.{code}
use Prim.Native.String.{String}
use mathlib.Core.Path.{◌≡◌, refl, sym, ap, ◌∙◌}
use mathlib.Core.Logic.{◌↔◌}
use mathlib.Core.Bool.{Bool, true, false, ◌&&◌, ◌||◌}
use mathlib.Core.List.{List, [], ◌∷◌, map}
use native.Mathlib.Omega.{arith}
use ma_at.Prelude.Tests.{leb, ◌==◌, if◌then◌else◌, branch}

abbrev pub Text : Type 0
Text = List ℕ

-- A literal of the source.
unfoldable pub text : String → Text
text String.[] = []
text (String.◌∷◌ c s) = code c ∷ text s

-- `toLowerCase` on a code: ASCII letters, which is what identifiers hold.
unfoldable pub to_lower : ℕ → ℕ
to_lower c = if leb b'A' c && leb c b'Z' then c + 32 else c

to_lower_idem : (c : ℕ) → to_lower (to_lower c) ≡ to_lower c
unfolding to_lower
to_lower_idem c = ground arith

pub map-to_lower_idem : (t : Text) → map to_lower (map to_lower t) ≡ map to_lower t
map-to_lower_idem [] = refl
map-to_lower_idem (c ∷ t) = cc (to_lower_idem c, map-to_lower_idem t)

-- `t.startsWith(part)` and `t.includes(part)`
unfoldable pub starts_with : Text → Text → Bool
starts_with [] t = true
starts_with (a ∷ p) [] = false
starts_with (a ∷ p) (b ∷ t) = (a == b) && starts_with p t

unfoldable pub includes : Text → Text → Bool
includes part [] = starts_with part []
includes part (c ∷ t) = starts_with part (c ∷ t) || includes part t

-- `===` on strings.
unfoldable pub text_eq : Text → Text → Bool
text_eq [] [] = true
text_eq [] (b ∷ u) = false
text_eq (a ∷ t) [] = false
text_eq (a ∷ t) (b ∷ u) = (a == b) && text_eq t u

pub text_eq_iff : (t u : Text) → (text_eq t u ≡ true) ↔ (t ≡ u)
unfolding text_eq
text_eq_iff [] [] = ground arith
text_eq_iff [] (b ∷ u) = ground arith
text_eq_iff (a ∷ t) [] = ground arith
text_eq_iff (a ∷ t) (b ∷ u) = ground (arith, text_eq_iff t u)

pub text_eq_refl : (t : Text) → text_eq t t ≡ true
text_eq_refl t = (text_eq_iff t t).1 refl

-- `replace(/^0x/i, "")`: code 48 is `0`, 120 is `x` and 88 is `X`.
unfoldable pub strip_0x : Text → Text
strip_0x (a ∷ b ∷ t) = if (a == 48) && ((b == 120) || (b == 88)) then t else a ∷ b ∷ t
strip_0x t = t

-- `keyOf`, and `intentKey` of the routing.
unfoldable pub key_of : Text → Text
unfolding strip_0x to_lower
key_of id = map to_lower (strip_0x id)

-- `0x${key}`
unfoldable pub with_0x : Text → Text
with_0x key = 48 ∷ 120 ∷ key

-- `address.toLowerCase()`, the routing's `addrKey`.
unfoldable pub addr_key : Text → Text
unfolding to_lower
addr_key address = map to_lower address

-- A text that `toLowerCase` leaves as it is.
abbrev pub IsLower : Text → Type 0
IsLower t = map to_lower t ≡ t

pub key_of-IsLower : (id : Text) → IsLower (key_of id)
unfolding key_of
key_of-IsLower id = map-to_lower_idem (strip_0x id)

pub key_of-with_0x : (k : Text) → IsLower k → key_of (with_0x k) ≡ k
unfolding key_of with_0x
key_of-with_0x k h = h

-- A key that is written out with its prefix again has itself for its key.
pub key_of-with_0x-key_of : (id : Text) → key_of (with_0x (key_of id)) ≡ key_of id
key_of-with_0x-key_of id = key_of-with_0x (key_of id) (key_of-IsLower id)

abbrev digit : ℕ → ℕ
digit n = n % 10 + 48

unfoldable show_digits : ℕ → ℕ → Text → Text
show_digits zero n rest = rest
show_digits (suc f) n rest =
    if n / 10 == 0 then digit n ∷ rest else show_digits f (n / 10) (digit n ∷ rest)

-- A number in a template literal; as many rounds as the number has units are enough.
unfoldable pub show_ℕ : ℕ → Text
unfolding show_digits
show_ℕ n = show_digits (suc n) n []

-- The number that digits stand for, after a number read before them.
unfoldable pub read_ℕ : ℕ → Text → ℕ
read_ℕ n [] = n
read_ℕ n (c ∷ t) = read_ℕ (n * 10 + (c - 48)) t

read_ℕ-show_digits :
    (f n : ℕ) (rest : Text) → n < f → read_ℕ 0 (show_digits f n rest) ≡ read_ℕ n rest
unfolding show_digits read_ℕ
read_ℕ-show_digits zero n rest enough = absurd (omega (arith, enough))
read_ℕ-show_digits (suc f) n rest enough =
    branch (λ t. read_ℕ 0 t ≡ read_ℕ n rest) (n / 10 == 0) _ _
      (λ e. ap (λ k. read_ℕ k rest) (ground (arith, e)))
      (λ e.
        read_ℕ-show_digits f (n / 10) (digit n ∷ rest) (ground (arith, e, enough))
        ∙ ap (λ k. read_ℕ k rest) (omega arith))

pub read_ℕ-show_ℕ : (n : ℕ) → read_ℕ 0 (show_ℕ n) ≡ n
unfolding show_ℕ read_ℕ
read_ℕ-show_ℕ n = read_ℕ-show_digits (suc n) n [] (omega arith)

pub show_ℕ-eq : (m n : ℕ) → show_ℕ m ≡ show_ℕ n → m ≡ n
show_ℕ-eq m n e = sym (read_ℕ-show_ℕ m) ∙ ap (read_ℕ 0) e ∙ read_ℕ-show_ℕ n
