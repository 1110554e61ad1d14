-- ===== src/SettledLedger/Laws.antt =====
-- The settled ledger along any calls of its two writers.
use ma_at.Prelude.{
  ℕ, ◌≡◌, ◌≢◌, ◌⊎◌, inl, inr, refl, true, List, [], ◌∷◌, arith, Text, addr_key, text_eq_iff,
}
use ma_at.Prelude.Dict
use ma_at.Prelude.Dict.{Dict, get-set}
use ma_at.SettledLedger.{
  SettledLedger, LedgerEntry, settled, is_settled, get_ledger_entry, is_already_settled,
  mark_settling, mark_settled,
}

-- The calls that change the ledger: a payout is signed, or a payout is confirmed.
pub data Mark : Type 0 where
  settling_mark : Text → Text → Mark
  settled_mark : Text → Mark

unfoldable pub apply_mark : ℕ → Mark → SettledLedger → SettledLedger
unfolding mark_settling mark_settled
apply_mark now (settling_mark id sig) l = mark_settling id sig now l
apply_mark now (settled_mark id) l = mark_settled id now l

unfoldable pub apply_marks : List (ℕ × Mark) → SettledLedger → SettledLedger
unfolding apply_mark
apply_marks [] l = l
apply_marks ((now, m) ∷ ms) l = apply_marks ms (apply_mark now m l)

-- No payout is signed for an intent.
abbrev pub Unsigned : Text → List (ℕ × Mark) → Type 0
Unsigned id [] = Unit
Unsigned id ((now, settling_mark j sig) ∷ ms) = (addr_key j ≢ addr_key id) × Unsigned id ms
Unsigned id ((now, settled_mark j) ∷ ms) = Unsigned id ms

-- A write of another key, or of a settled entry, leaves a settled entry settled.
set-settled :
    (k j : Text) (e : LedgerEntry) (m : Dict LedgerEntry)
    → (j ≢ k) ⊎ (e.status ≡ settled)
    → is_settled (Dict.get k m) ≡ true
    → is_settled (Dict.get k (Dict.set j e m)) ≡ true
set-settled k j e m u h = ground (arith, get-set j k e m, text_eq_iff j k)

pub mark-settled :
    (id : Text) (now : ℕ) (m : Mark) (l : SettledLedger)
    → Unsigned id ((now, m) ∷ [])
    → is_already_settled id l ≡ true
    → is_already_settled id (apply_mark now m l) ≡ true
unfolding is_already_settled get_ledger_entry apply_mark
mark-settled id now (settling_mark j sig) l u h = set-settled _ _ _ l.entries (inl u.0) h
mark-settled id now (settled_mark j) l u h = set-settled _ _ _ l.entries (inr refl) h

mark-file :
    (now : ℕ) (m : Mark) (l : SettledLedger)
    → (apply_mark now m l).file ≡ (apply_mark now m l).entries
unfolding apply_mark
mark-file now (settling_mark j sig) l = refl
mark-file now (settled_mark j) l = refl

-- An intent that is settled stays settled until a payout is signed for it again, whatever is written
-- of other intents, and a file that agrees with the ledger goes on to do so.
pub apply_marks-settled :
    (id : Text) (ms : List (ℕ × Mark)) (l : SettledLedger)
    → Unsigned id ms
    → l.file ≡ l.entries
    → is_already_settled id l ≡ true
    → (is_already_settled id (apply_marks ms l) ≡ true)
      × ((apply_marks ms l).file ≡ (apply_marks ms l).entries)
unfolding apply_marks
apply_marks-settled id [] l u f h = (h, f)
apply_marks-settled id ((now, settling_mark j sig) ∷ ms) l u f h =
    apply_marks-settled id ms _ u.1 (mark-file now (settling_mark j sig) l)
      (mark-settled id now (settling_mark j sig) l (u.0, tt) h)
apply_marks-settled id ((now, settled_mark j) ∷ ms) l u f h =
    apply_marks-settled id ms _ u (mark-file now (settled_mark j) l)
      (mark-settled id now (settled_mark j) l tt h)
