-- ===== src/Examples/Paying.antt =====
-- A child that signs, is told to go on, and ends well.
use ma_at.Prelude.{
  ℕ, suc, ◌+◌, ◌≤◌, ◌<◌, ◌≡◌, refl, ◌==◌, true, none, some, [], ◌∷◌, ◌++◌, if◌then◌else◌, text,
  starts_with, text_eq,
}
use ma_at.Prelude.Dict
use ma_at.SettledLedger.{is_already_settled, get_ledger_entry}
use ma_at.Settlement.World.{ok, Side}
use ma_at.Listener.Payout.{
  Child, stdout, close, run_solana_payout, watch, on_event, on_stdout, on_close, on_success,
  match_sig, nonspace, record_sig,
}
use ma_at.Listener.Listed.{IsListed, restart}
use ma_at.Listener.Once.{Counts, none_yet, then_step, attempt, restarted, pays_once}
use ma_at.Destination.{drop}
use ma_at.Redact.{is_space}
use ma_at.Examples.Fixture.{intent, proof}

-- How far the child is, and how often it was told to go on.
abbrev Outside : Type 0
Outside = ℕ × ℕ

abbrev child : Child Outside
child = record {
  now_ms = λ o. 100000;
  spawn = λ env o. (0, o.1);
  next = λ o. (
    if o.0 == 0 then stdout (text "SETTLING_SIG:5Kx" ++ (10 ∷ [])) else close (some 0),
    (suc o.0, o.1),
  );
  go = λ o. (o.0, suc o.1);
}

abbrev told : Outside → ℕ
told o = o.1

counted : Counts child told
counted = record { next = λ o. refl; spawn = λ env o. refl; go = λ o. refl }

abbrev side : Side Outside
side = record {
  settled = record { entries = []; file = [] };
  states = [];
  alerts = [];
  outside = (0, 0);
}

-- The process crashes after the handshake, starts again, and tries the payout again.
abbrev crashed : Side Outside
crashed = (run_solana_payout child 1 proof intent intent side).1

abbrev again : Side Outside
again = record crashed { settled = restart crashed.settled }

pays :
    (run_solana_payout child 2 proof intent intent side).0
    ≡ ok (record { ok = true; sig = some (text "5Kx"); error = none })
unfolding run_solana_payout watch on_event on_stdout on_close on_success match_sig nonspace
    starts_with is_space drop text is_already_settled get_ledger_entry Dict.get record_sig text_eq
pays = refl

pays_once_example :
    (told (run_solana_payout child 9 proof intent intent again).1.outside ≤ told side.outside + 1)
    × (told side.outside < told (run_solana_payout child 9 proof intent intent again).1.outside
        → IsListed proof.intent_id (run_solana_payout child 9 proof intent intent again).1.settled)
pays_once_example =
    pays_once child told counted proof side (run_solana_payout child 9 proof intent intent again).1
      (then_step (then_step (then_step none_yet (attempt 1 intent intent refl)) (restarted refl))
        (attempt 9 intent intent refl))
