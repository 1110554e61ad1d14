-- ===== src/Examples/Landing.antt =====
-- A pass over a payout that was signed before a crash and has landed since.
use ma_at.Prelude.{ℕ, ◌≡◌, refl, true, [], ◌∷◌, addr_key, keep_if}
use ma_at.Prelude.Dict
use ma_at.SettledLedger.{mark_settling, get_settling_entries}
use ma_at.Settlement.World.{ok, Outside, World, pure, ◌>>=◌, outward, modify}
use ma_at.Settlement.Chain.{observe, check_solana_signature_landed}
use ma_at.Settling.{reconcile_settling, after_check, reconcile_settling_ledger}
use ma_at.Settling.Landed.{ReportsSettled, reconcile-ReportsSettled}
use ma_at.Examples.Fixture.{intent, out, world, empty_ledger}

abbrev landed : Outside ℕ
landed = record out { signature_landed = λ sig o. (ok true, o) }

abbrev signed : World ℕ
signed = record (world empty_ledger) {
  side = record (world empty_ledger).side {
    settled = mark_settling intent intent 90000 (record { entries = []; file = [] });
  };
}

reports_it :
    (reconcile_settling_ledger landed [] signed).0
    ≡ ok (record { alerted = []; newly_settled = intent ∷ [] })
unfolding reconcile_settling_ledger reconcile_settling after_check check_solana_signature_landed
    observe get_settling_entries mark_settling addr_key Dict.set Dict.get ◌>>=◌ pure outward modify
    keep_if
reports_it = refl

reconcile-ReportsSettled_example : ReportsSettled (reconcile_settling_ledger landed [] signed)
reconcile-ReportsSettled_example = reconcile-ReportsSettled landed [] signed
