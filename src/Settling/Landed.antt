-- ===== src/Settling/Landed.antt =====
-- The intents that reconcileSettlingLedger reports as newly settled.
use ma_at.Prelude.{
  ℕ, ◌≡◌, refl, sym, subst, Bool, true, false, List, [], ◌∷◌, ◌++◌, if◌then◌else◌, All, Text,
  text_eq_refl,
}
use ma_at.Prelude.Dict.{get-set}
use ma_at.SettledLedger.{SettledLedger, is_already_settled, get_ledger_entry, mark_settled}
use ma_at.SettledLedger.Laws.{settled_mark, apply_mark, mark-settled}
use ma_at.Settlement.World.{
  Reply, ok, threw, unfinished, Outside, World, Exec, pure, modify, ◌>>=◌, now_ms,
}
use ma_at.Settlement.Chain.{observe, check_solana_signature_landed}
use ma_at.Settlement.Notes.{alert}
use ma_at.Settlement.Keeps.{keeps-bind-outward}
use ma_at.Settling.{
  Pass, has_alerted, settle_landed, warn_waiting, warn_failed, after_check, reconcile_settling,
  reconcile_settling_ledger,
}

-- Every intent of a list is settled in a ledger.
abbrev AllSettled : List Text → SettledLedger → Type 0
AllSettled ids l = All (λ id. is_already_settled id l ≡ true) ids

-- A pass does not throw, and if no look hangs it reports only intents that are settled.
abbrev pub ReportsSettled : {W : Type 0} → Reply Pass × World W → Type 0
ReportsSettled (ok p, w) = AllSettled p.newly_settled w.settled
ReportsSettled (threw e, w) = ⊥
ReportsSettled (unfinished, w) = Unit

mark_settled_self :
    (id : Text) (now : ℕ) (l : SettledLedger) → is_already_settled id (mark_settled id now l) ≡ true
unfolding is_already_settled get_ledger_entry mark_settled
mark_settled_self id now l = rw (get-set, text_eq_refl) refl

mark_settled-All :
    (id : Text) (now : ℕ) (ids : List Text) (l : SettledLedger)
    → AllSettled ids l
    → AllSettled (ids ++ (id ∷ [])) (mark_settled id now l)
unfolding apply_mark
mark_settled-All id now [] l h = (mark_settled_self id now l, tt)
mark_settled-All id now (j ∷ ids) l h =
    (mark-settled j now (settled_mark id) l tt h.0, mark_settled-All id now ids l h.1)

module _ {W : Type 0} (out : Outside W) where
  check-settled :
      (sig : Text) (w : World W) → (check_solana_signature_landed out sig w).1.settled ≡ w.settled
  unfolding check_solana_signature_landed observe modify pure ◌>>=◌
  check-settled sig w =
      keeps-bind-outward (λ v. v.settled ≡ w.settled) _ _ w (λ o. refl) (λ a o e. refl)

  after_check-ReportsSettled :
      (id sig : Text) (p : Pass) (reply : Reply Bool) (f : Pass → Exec W Pass) (w : World W)
      → ((p' : Pass) (w' : World W)
          → AllSettled p'.newly_settled w'.settled
          → ReportsSettled (f p' w'))
      → AllSettled p.newly_settled w.settled
      → ReportsSettled ((after_check out id sig p reply >>= f) w)
  unfolding after_check settle_landed warn_failed warn_waiting alert ◌>>=◌
  after_check-ReportsSettled id sig p (ok true) f w k h =
      k _ _ (mark_settled-All id (now_ms out w) p.newly_settled w.settled h)
  after_check-ReportsSettled id sig p (ok false) f w k h = go (has_alerted sig p.alerted)
    where
      go :
          (b : Bool)
          → ReportsSettled (
              ((λ v. if b then (ok p, v) else (
                ok (record p { alerted = p.alerted ++ (sig ∷ []) }),
                warn_waiting out id sig v,
              ))
                  >>= f)
                w)
      go true = k p w h
      go false = k _ _ h
  after_check-ReportsSettled id sig p (threw e) f w k h = k _ _ h
  after_check-ReportsSettled id sig p unfinished f w k h = tt

  reconcile_settling-ReportsSettled :
      (xs : List (Text × Text)) (p : Pass) (w : World W)
      → AllSettled p.newly_settled w.settled
      → ReportsSettled (reconcile_settling out xs p w)
  unfolding reconcile_settling pure
  reconcile_settling-ReportsSettled [] p w h = h
  reconcile_settling-ReportsSettled ((id, sig) ∷ xs) p w h =
      after_check-ReportsSettled id sig p (check_solana_signature_landed out sig w).0
        (reconcile_settling out xs) (check_solana_signature_landed out sig w).1
        (λ p' w' h'. reconcile_settling-ReportsSettled xs p' w' h')
        (subst (AllSettled p.newly_settled) (sym (check-settled sig w)) h)

  -- A pass over the settling entries does not throw, whatever the looks at Solana answer and which of
  -- them fail, and, unless a look never ends, every intent that it reports as newly settled is settled
  -- in the ledger afterwards.
  pub reconcile-ReportsSettled :
      (alerted : List Text) (w : World W) → ReportsSettled (reconcile_settling_ledger out alerted w)
  unfolding reconcile_settling_ledger
  reconcile-ReportsSettled alerted w = reconcile_settling-ReportsSettled _ _ w tt
