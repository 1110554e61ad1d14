-- ===== src/Listener/Listed.antt =====
-- An intent that has an entry in the settled ledger and in its file keeps it: along the ledger's writes,
-- and when the process starts again.
use ma_at.Prelude.{
  ℕ, ◌≡◌, refl, sym, subst, ap, ◌∙◌, ◌⊎◌, inl, inr, Bool, true, false, Option, none, some, [], ◌∷◌,
  if◌then◌else◌, Text, text_eq, text_eq_iff, text_eq_refl, map-to_lower_idem, addr_key, arith,
}
use ma_at.Prelude.Dict
use ma_at.Prelude.Dict.{Dict, get-set}
use ma_at.SettledLedger.{
  SettledLedger, by_key, load_entries, load_settled_ledger, LedgerEntry, mark_settling,
}
use ma_at.SettledLedger.Laws.{Mark, settling_mark, settled_mark, apply_mark}

-- The intent has an entry in the ledger, and in its file.
abbrev pub is_some : Option LedgerEntry → Bool
is_some none = false
is_some (some e) = true

abbrev pub IsListed : Text → SettledLedger → Type 0
IsListed id l =
    (is_some (Dict.get (addr_key id) l.entries) ≡ true)
    × (is_some (Dict.get (addr_key id) l.file) ≡ true)

set-listed :
    (k j : Text) (e : LedgerEntry) (m : Dict LedgerEntry)
    → is_some (Dict.get k m) ≡ true
    → is_some (Dict.get k (Dict.set j e m)) ≡ true
set-listed k j e m h = ground (arith, get-set j k e m)

set-listed_self :
    (k : Text) (e : LedgerEntry) (m : Dict LedgerEntry)
    → is_some (Dict.get k (Dict.set k e m)) ≡ true
set-listed_self k e m = rw (get-set k k e m, text_eq_refl) refl

pub mark-IsListed :
    (id : Text) (now : ℕ) (m : Mark) (l : SettledLedger)
    → IsListed id l
    → IsListed id (apply_mark now m l)
unfolding apply_mark
mark-IsListed id now (settling_mark j sig) l h =
    (set-listed _ _ _ l.entries h.0, set-listed _ _ _ l.entries h.0)
mark-IsListed id now (settled_mark j) l h =
    (set-listed _ _ _ l.entries h.0, set-listed _ _ _ l.entries h.0)

pub mark_settling-IsListed :
    (id sig : Text) (now : ℕ) (l : SettledLedger) → IsListed id (mark_settling id sig now l)
unfolding mark_settling
mark_settling-IsListed id sig now l = (set-listed_self _ _ l.entries, set-listed_self _ _ l.entries)

load_entries-listed :
    (k : Text) (ledger raw : Dict LedgerEntry)
    → addr_key k ≡ k
    → (is_some (Dict.get k ledger) ≡ true) ⊎ (is_some (Dict.get k raw) ≡ true)
    → is_some (Dict.get k (load_entries ledger raw)) ≡ true
unfolding load_entries Dict.get
load_entries-listed k ledger [] low (inl h) = h
load_entries-listed k ledger [] low (inr h) = cc
load_entries-listed k ledger ((id, e) ∷ raw) low (inl h) =
    load_entries-listed k (Dict.set (addr_key id) e ledger) raw low
      (inl (set-listed k (addr_key id) e ledger h))
load_entries-listed k ledger ((id, e) ∷ raw) low (inr h) =
    load_entries-listed k (Dict.set (addr_key id) e ledger) raw low (go (text_eq id k) refl h)
  where
    go :
        (b : Bool)
        → text_eq id k ≡ b
        → is_some (if b then some e else Dict.get k raw) ≡ true
        → (is_some (Dict.get k (Dict.set (addr_key id) e ledger)) ≡ true)
          ⊎ (is_some (Dict.get k raw) ≡ true)
    go true q h' = inl (
        subst (λ j. is_some (Dict.get k (Dict.set j e ledger)) ≡ true)
          (sym (ap addr_key ((text_eq_iff id k).0 q) ∙ low)) (set-listed_self k e ledger))
    go false q h' = inr h'

-- A process that starts again reads its ledger from the file that the one before it left.
abbrev pub restart : SettledLedger → SettledLedger
restart l = record { entries = load_settled_ledger (by_key l.file); file = l.file }

pub restart-IsListed : (id : Text) (l : SettledLedger) → IsListed id l → IsListed id (restart l)
unfolding load_settled_ledger addr_key
restart-IsListed id l h =
    (load_entries-listed (addr_key id) [] l.file (map-to_lower_idem id) (inr h.1), h.1)
