-- ===== src/Prelude/Dict.antt =====
-- A JavaScript `Map` or plain object with string keys: its entries in insertion order. `set` on a
-- key that is there keeps the key's place.
use mathlib.Core.Path.{◌≡◌, refl}
use mathlib.Core.Bool.{Bool}
use mathlib.Core.Option.{Option, none, some}
use mathlib.Core.List.{List, [], ◌∷◌}
use native.Mathlib.Omega.{arith}
use ma_at.Prelude.Tests.{if◌then◌else◌}
use ma_at.Prelude.Lists.{keep_if}
use ma_at.Prelude.Texts.{Text, text_eq, text_eq_iff}

abbrev pub Dict {ℓ} : Type ℓ → Type ℓ
Dict V = List (Text × V)

module _ {ℓ} {V : Type ℓ} where
  unfoldable pub get : Text → Dict V → Option V
  get k [] = none
  get k ((j, v) ∷ m) = if text_eq j k then some v else get k m

  unfoldable pub set : Text → V → Dict V → Dict V
  set k v [] = (k, v) ∷ []
  set k v ((j, w) ∷ m) = if text_eq j k then (j, v) ∷ m else (j, w) ∷ set k v m

  unfoldable pub delete : Text → Dict V → Dict V
  delete k [] = []
  delete k ((j, w) ∷ m) = let rest = delete k m in if text_eq j k then rest else (j, w) ∷ rest

  pub get-set :
      (k j : Text) (v : V) (m : Dict V)
      → get j (set k v m) ≡ (if text_eq k j then some v else get j m)
  unfolding get set
  get-set k j v [] = refl
  get-set k j v ((i, w) ∷ m) =
      ground (arith, text_eq_iff k j, text_eq_iff i k, text_eq_iff i j, get-set k j v m)

  pub get-delete :
      (k j : Text) (m : Dict V) → get j (delete k m) ≡ (if text_eq k j then none else get j m)
  unfolding get delete
  get-delete k j [] = ground arith
  get-delete k j ((i, w) ∷ m) =
      ground (arith, text_eq_iff k j, text_eq_iff i k, text_eq_iff i j, get-delete k j m)

  -- No key stands twice, which is so of every map that `set` and `delete` build.
  abbrev pub IsDistinct : Dict V → Type ℓ
  IsDistinct [] = Unit
  IsDistinct ((k, v) ∷ m) = (get k m ≡ none) × IsDistinct m

  pub set-IsDistinct : (k : Text) (v : V) (m : Dict V) → IsDistinct m → IsDistinct (set k v m)
  unfolding get set
  set-IsDistinct k v [] h = (refl, tt)
  set-IsDistinct k v ((i, w) ∷ m) h =
      ground (arith, text_eq_iff i k, text_eq_iff k i, get-set k i v m, set-IsDistinct k v m h.1)

  pub delete-IsDistinct : (k : Text) (m : Dict V) → IsDistinct m → IsDistinct (delete k m)
  unfolding get delete
  delete-IsDistinct k [] h = tt
  delete-IsDistinct k ((i, w) ∷ m) h =
      ground (arith, text_eq_iff i k, text_eq_iff k i, get-delete k i m, delete-IsDistinct k m h.1)

  -- What a filter on the values leaves of a key's entry.
  abbrev pub pass : (V → Bool) → Option V → Option V
  pass p none = none
  pass p (some v) = if p v then some v else none

  pub get-keep_if :
      (p : V → Bool) (k : Text) (m : Dict V)
      → IsDistinct m
      → get k (keep_if (λ e. p e.1) m) ≡ pass p (get k m)
  unfolding get keep_if
  get-keep_if p k [] h = refl
  get-keep_if p k ((i, w) ∷ m) h = ground (arith, text_eq_iff i k, get-keep_if p k m h.1)

pub ruleset dict_laws = (get-set, get-delete)
