-- ===== src/Settlement/Ends/Confirming.antt =====
-- Termination of confirmSettlementWithRetry.
use ma_at.Prelude.{
  ℕ, zero, suc, ◌+◌, ◌-◌, ◌*◌, ◌/◌, ◌≤◌, ◌<◌, ◌≡◌, refl, Bool, true, false, ◌||◌, List, [], ◌∷◌,
  ◌==◌, leb, if◌then◌else◌, All, length, arith, Text,
}
use Prim.Native.Nat.{min}
use ma_at.IntentStatus.{
  OnChainIntent, intent_status_settled, intent_status_slashed, intent_status_refunded,
}
use ma_at.ProofOutput.{ProofOutputJson}
use ma_at.Settlement.World.{
  Outside, Transaction, TxOutcome, World, Exec, ◌>>=◌, ◌>>◌, modify, move, sleep, now_ms, now_sec,
}
use ma_at.Settlement.Chain.{
  Config, OnSigned, sign_and_send, note_broadcast, read_intent, send_confirm_settlement,
}
use ma_at.Settlement.Notes.{mirror_display, report}
use ma_at.Settlement.Confirm.{
  get_or, confirm_backoff, confirm_deadline, mark_confirmed, mark_confirmed_by, confirming_signed,
  give_up, resolved_reason, after_confirm, confirm_round, confirm_loop,
  confirm_settlement_with_retry,
}
use ma_at.Settlement.Ends.{
  Ticks, Ends, Still, Ends-pure, Ends-outward, Ends-catch, Ends-modify, Ends-bind,
  Ends-bind-observe, Ends-if,
}

module _ {W : Type 0} (out : Outside W) (t : ℕ) where
  pub sign_and_send-Ends :
      (from : Text) (tx : Transaction) (on_signed : OnSigned W) (w : World W)
      → Ticks out
      → ((hash : Text) → Still out (on_signed hash))
      → t ≤ now_ms out w
      → Ends out t (sign_and_send out from tx on_signed w)
  unfolding sign_and_send note_broadcast
  sign_and_send-Ends from tx on_signed w ticks still h =
      Ends-catch out t _ _ w
        (Ends-bind out t _ _ w (Ends-outward out t _ w (ticks.signs from tx w.outside) h)
          λ hash w1 h1. Ends-bind out t _ _ w1 (Ends-modify out t _ w1 (still hash) h1) λ u w2 h2.
            Ends-bind out t _ _ w2 (Ends-modify out t _ w2 (λ v. refl) h2) λ u' w3 h3.
              Ends-bind out t _ _ w3 (Ends-outward out t _ w3 (ticks.sends hash w3.outside) h3)
                λ r w4 h4. Ends-pure out t _ w4 h4)
        (λ e w' h'. Ends-pure out t _ w' h')

get_or-positive : (xs : List ℕ) (i : ℕ) → All (λ b. 1 ≤ b) xs → 1 ≤ get_or xs i 1
get_or-positive [] i h = omega arith
get_or-positive (x ∷ xs) zero h = h.0
get_or-positive (x ∷ xs) (suc i) h = get_or-positive xs i h.1

module _ {W : Type 0} (out : Outside W) (cfg : Config) where
  -- A sleep of a millisecond at least, and what follows it.
  pub sleep_then-Ends :
      {B : Type 0} (ms t : ℕ) (m : Exec W B) (w : World W)
      → Ticks out
      → 1 ≤ ms
      → t ≤ now_ms out w
      → ((w' : World W) → suc t ≤ now_ms out w' → Ends out (suc t) (m w'))
      → Ends out t ((sleep out ms >> m) w)
  unfolding sleep ◌>>=◌
  sleep_then-Ends ms t m w ticks positive h k =
      let (answered, later) =
        k (move (out.sleep ms w.outside) w)
          (omega (arith, ticks.sleeps ms w.outside, positive, h)) in
      (answered, omega (arith, later))

  backoff-positive :
      (attempt : ℕ)
      → All (λ b. 1 ≤ b) cfg.confirm_retry_backoff_ms
      → 1 ≤ confirm_backoff out cfg attempt
  unfolding confirm_backoff
  backoff-positive attempt h =
      get_or-positive cfg.confirm_retry_backoff_ms
        (min (attempt - 1) (length cfg.confirm_retry_backoff_ms - 1)) h

  -- Before the deadline's second, the clock is before its first millisecond.
  before_deadline :
      (deadline now t : ℕ) → leb deadline (now / 1000) ≡ false → t ≤ now → t < deadline * 1000
  before_deadline deadline now t h le = ground arith

  after_confirm-Ends :
      (attempt : ℕ) (id : Text) (json : ProofOutputJson) (again : Exec W Unit) (outcome : TxOutcome)
      (t : ℕ) (w : World W)
      → Ticks out
      → All (λ b. 1 ≤ b) cfg.confirm_retry_backoff_ms
      → t ≤ now_ms out w
      → (t < confirm_deadline out cfg json * 1000
          → (w' : World W) → suc t ≤ now_ms out w'
          → Ends out (suc t) (again w'))
      → Ends out t (after_confirm out cfg attempt id json again outcome w)
  unfolding after_confirm mark_confirmed_by give_up report mirror_display
  after_confirm-Ends attempt id json again outcome t w ticks positive h k =
      Ends-if out t outcome.ok _ _ (λ e. Ends-modify out t _ w (λ v. refl) h)
        (λ e.
          Ends-if out t (leb (confirm_deadline out cfg json) (now_sec out w)) _ _
            (λ d. Ends-modify out t _ w (λ v. refl) h)
            (λ d.
              sleep_then-Ends (confirm_backoff out cfg attempt) t again w ticks
                (backoff-positive attempt positive) h
                (k (before_deadline (confirm_deadline out cfg json) (now_ms out w) t d h))))

  confirm_round-Ends :
      (attempt : ℕ) (id : Text) (json : ProofOutputJson) (z : Text) (again : Exec W Unit)
      (o : OnChainIntent) (t : ℕ) (w : World W)
      → Ticks out
      → All (λ b. 1 ≤ b) cfg.confirm_retry_backoff_ms
      → t ≤ now_ms out w
      → (t < confirm_deadline out cfg json * 1000
          → (w' : World W) → suc t ≤ now_ms out w'
          → Ends out (suc t) (again w'))
      → Ends out t (confirm_round out cfg attempt id json z again o w)
  unfolding confirm_round send_confirm_settlement mark_confirmed report confirming_signed
      mirror_display
  confirm_round-Ends attempt id json z again o t w ticks positive h k =
      go (o.status == intent_status_settled)
        ((o.status == intent_status_slashed) || (o.status == intent_status_refunded))
    where
      go :
          (b c : Bool)
          → Ends out t (
              (if b
                  then modify (mark_confirmed out cfg id json)
                  else if c
                  then modify (report out id (resolved_reason out cfg o))
                  else send_confirm_settlement out cfg id z (confirming_signed out cfg id json)
                    >>= after_confirm out cfg attempt id json again)
                w)
      go true c = Ends-modify out t _ w (λ v. refl) h
      go false true = Ends-modify out t _ w (λ v. refl) h
      go false false =
          Ends-bind out t _ _ w (sign_and_send-Ends out t _ _ _ w ticks (λ hash v. refl) h)
            λ outcome w' h'.
              after_confirm-Ends attempt id json again outcome t w' ticks positive h' k

  confirm_loop-Ends :
      (fuel attempt : ℕ) (id : Text) (json : ProofOutputJson) (z : Text) (t : ℕ) (w : World W)
      → Ticks out
      → All (λ b. 1 ≤ b) cfg.confirm_retry_backoff_ms
      → t ≤ now_ms out w
      → confirm_deadline out cfg json * 1000 ≤ fuel + t
      → Ends out t (confirm_loop out cfg (suc fuel) attempt id json z w)
  unfolding confirm_loop read_intent
  confirm_loop-Ends zero attempt id json z t w ticks positive h enough =
      Ends-bind-observe out t _ _ _ w (ticks.reads id w.outside) h λ o w1 h1.
        confirm_round-Ends attempt id json z _ o t w1 ticks positive h1
          λ early. elim (late early) [ ]
    where
      late : t < confirm_deadline out cfg json * 1000 → ⊥
      late early = omega (arith, early, enough)
  confirm_loop-Ends (suc fuel) attempt id json z t w ticks positive h enough =
      Ends-bind-observe out t _ _ _ w (ticks.reads id w.outside) h λ o w1 h1.
        confirm_round-Ends attempt id json z _ o t w1 ticks positive h1 λ early w2 h2.
          confirm_loop-Ends fuel (attempt + 1) id json z (suc t) w2 ticks positive h2
            (omega (arith, enough))

  -- With a clock that ticks, delays of a millisecond at least and fuel for every millisecond up to the
  -- deadline, the retries of confirmSettlement end, whatever the chain answers.
  pub confirm_settlement_with_retry-Ends :
      (fuel : ℕ) (id : Text) (json : ProofOutputJson) (z : Text) (w : World W)
      → Ticks out
      → All (λ b. 1 ≤ b) cfg.confirm_retry_backoff_ms
      → confirm_deadline out cfg json * 1000 ≤ fuel + now_ms out w
      → Ends out (now_ms out w) (confirm_settlement_with_retry out cfg (suc fuel) id json z w)
  unfolding confirm_settlement_with_retry
  confirm_settlement_with_retry-Ends fuel id json z w ticks positive enough =
      confirm_loop-Ends fuel 1 id json z (now_ms out w) w ticks positive (omega arith) enough
