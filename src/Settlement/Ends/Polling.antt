-- ===== src/Settlement/Ends/Polling.antt =====
-- pollAwaitingSlash ends, whatever the chains answer.
use ma_at.Prelude.{
  ℕ, suc, ◌+◌, ◌*◌, ◌≤◌, ◌≡◌, refl, Bool, true, false, Option, none, some, List, [], ◌∷◌, All, Text,
  branch, key_of, with_0x, arith,
}
use ma_at.ProofOutput.{ProofOutputJson}
use ma_at.ArbitrumLedger.{ArbitrumLedgerEntry}
use ma_at.SettledLedger.{LedgerEntry, LedgerStatus, settling, settled, get_ledger_entry}
use ma_at.Settlement.World.{Outside, World, Exec, now_ms, now_sec, ◌>>=◌, TxOutcome}
use ma_at.Settlement.Chain.{
  Config, check_solana_signature_landed, read_proof_json, send_slash_solver,
}
use ma_at.Settlement.Notes.{report, mirror_display, alert}
use ma_at.Settlement.Confirm.{confirm_deadline}
use ma_at.Settlement.Slash.{
  for_each, landed_by, has_landed, settle_sig, confirm_found, after_look, resume_entry,
  resume_confirm_if_solana_landed, slashing_signed, after_slash, slash_unless, not_due, poll_entry,
  poll_awaiting_slash,
}
use ma_at.Settlement.Ends.{
  Passes, Ticks, Ends, Still, Ends-pure, Ends-modify, Ends-bind, Ends-bind-observe, Ends-if,
  Ends-choice,
}
use ma_at.Settlement.Ends.Confirming.{sign_and_send-Ends, confirm_settlement_with_retry-Ends}
use ma_at.Settlement.Ends.Paying.{compute-Ends}

module _ {W A : Type 0} (out : Outside W) (t : ℕ) where
  Ends-for_each :
      (body : A → Exec W Unit) (xs : List A) (w : World W)
      → ((x : A) (w' : World W) → t ≤ now_ms out w' → Ends out t (body x w'))
      → t ≤ now_ms out w
      → Ends out t (for_each body xs w)
  unfolding for_each
  Ends-for_each body [] w k h = Ends-pure out t tt w h
  Ends-for_each body (x ∷ xs) w k h =
      Ends-bind out t _ _ w (k x w h) λ u w' h'. Ends-for_each body xs w' k h'

-- What the poll relies on besides: Solana's node answers or fails, the delays are a millisecond at
-- least, and there is fuel up to the deadline of every proof that is ever on file.
pub record Suffices {W : Type 0} (out : Outside W) (cfg : Config) (fuel t : ℕ) : Type 0 where
  pub ticks : Ticks out
  pub looks : (sig : Text) (o : W) → Passes out o (out.signature_landed sig o)
  pub positive : All (λ b. 1 ≤ b) cfg.confirm_retry_backoff_ms
  pub fueled :
      (id : Text) (w : World W) (json : ProofOutputJson)
      → read_proof_json out id w ≡ some json
      → confirm_deadline out cfg json * 1000 ≤ fuel + t

module _ {W : Type 0} (out : Outside W) (cfg : Config) (fuel t : ℕ)
    (given : Suffices out cfg fuel t) where
  confirm_found-Ends :
      (id : Text) (e : LedgerEntry) (w : World W)
      → t ≤ now_ms out w
      → Ends out t (confirm_found out cfg (suc fuel) id e (read_proof_json out (key_of id) w) w)
  unfolding report
  confirm_found-Ends id e w h = go (read_proof_json out (key_of id) w) refl
    where
      go :
          (j : Option ProofOutputJson)
          → read_proof_json out (key_of id) w ≡ j
          → Ends out t (confirm_found out cfg (suc fuel) id e j w)
      go none q =
          Ends-bind out t _ _ w (Ends-modify out t _ w (λ v. refl) h)
            λ u w' h'. Ends-pure out t true w' h'
      go (some json) q = Ends-bind out t _ _ w (compute-Ends out cfg t (key_of id) w h) λ z w1 h1.
          let ended =
            confirm_settlement_with_retry-Ends out cfg fuel id json z w1 given.ticks given.positive
              (omega (arith, h1, given.fueled (key_of id) w json q)) in
          Ends-bind out t _ _ w1 (ended.0, omega (arith, h1, ended.1))
            λ u w2 h2. Ends-pure out t true w2 h2

  settle_sig-Still :
      (id : Text) (st : LedgerStatus) (sig : Option Text) → Still out (settle_sig out cfg id st sig)
  settle_sig-Still id settled sig w = refl
  settle_sig-Still id settling none w = refl
  settle_sig-Still id settling (some sig) w = refl

  after_look-Ends :
      (id : Text) (e : LedgerEntry) (landed : Bool) (w : World W)
      → t ≤ now_ms out w
      → Ends out t (after_look out cfg (suc fuel) id e landed w)
  after_look-Ends id e false w h = Ends-pure out t false w h
  after_look-Ends id e true w h =
      Ends-bind out t _ _ w (Ends-modify out t _ w (settle_sig-Still id e.status e.solana_sig) h)
        λ u w' h'. confirm_found-Ends id e w' h'

  look-Ends :
      (st : LedgerStatus) (sig : Option Text) (f : Bool → Exec W Bool) (w : World W)
      → t ≤ now_ms out w
      → ((landed : Bool) (w' : World W) → t ≤ now_ms out w' → Ends out t (f landed w'))
      → Ends out t ((landed_by out cfg st sig >>= f) w)
  unfolding check_solana_signature_landed
  look-Ends settled sig f w h k = Ends-bind out t _ f w (Ends-pure out t true w h) k
  look-Ends settling none f w h k = Ends-bind out t _ f w (Ends-pure out t false w h) k
  look-Ends settling (some sig) f w h k =
      Ends-bind-observe out t _ _ f w (given.looks sig w.outside) h k

  resume_entry-Ends :
      (id : Text) (e : Option LedgerEntry) (w : World W)
      → t ≤ now_ms out w
      → Ends out t (resume_entry out cfg (suc fuel) id e w)
  unfolding has_landed
  resume_entry-Ends id none w h = Ends-pure out t false w h
  resume_entry-Ends id (some e) w h =
      look-Ends e.status e.solana_sig _ w h λ landed w' h'. after_look-Ends id e landed w' h'

  after_slash-Still : (id : Text) (outcome : TxOutcome) → Still out (after_slash out cfg id outcome)
  unfolding after_slash report mirror_display alert
  after_slash-Still id outcome w =
      branch (λ (v : World W). v.outside ≡ w.outside) outcome.ok _ _ (λ e. refl) (λ e. refl)

  slash_unless-Ends :
      (id : Text) (averted : Bool) (w : World W)
      → t ≤ now_ms out w
      → Ends out t (slash_unless out cfg id averted w)
  unfolding slash_unless send_slash_solver slashing_signed mirror_display
  slash_unless-Ends id averted w h =
      Ends-choice out t averted _ _ w (λ e. Ends-pure out t tt w h)
        λ e.
          Ends-bind out t _ _ w (sign_and_send-Ends out t _ _ _ w given.ticks (λ hash v. refl) h)
            λ outcome w' h'. Ends-modify out t _ w' (after_slash-Still id outcome) h'

  poll_entry-Ends :
      (x : Text × ArbitrumLedgerEntry) (w : World W)
      → t ≤ now_ms out w
      → Ends out t (poll_entry out cfg (suc fuel) x w)
  unfolding poll_entry resume_confirm_if_solana_landed
  poll_entry-Ends (key, e) w h =
      Ends-if out t (not_due out cfg e.expiry (now_sec out w)) _ _ (λ q. Ends-pure out t tt w h)
        λ q.
          Ends-bind out t _ _ w
            (resume_entry-Ends (with_0x key) (get_ledger_entry (with_0x key) w.settled) w h)
            λ averted w' h'. slash_unless-Ends (with_0x key) averted w' h'

  -- With a clock that ticks, looks at Solana that answer or fail, delays of a millisecond at least, and fuel
  -- for every millisecond from the start to the deadline of every proof that is ever on file,
  -- pollAwaitingSlash returns or throws, whatever the chains answer, and does so at the time it
  -- started or later.
  pub poll_awaiting_slash-Ends :
      (w : World W) → t ≤ now_ms out w → Ends out t (poll_awaiting_slash out cfg (suc fuel) w)
  unfolding poll_awaiting_slash
  poll_awaiting_slash-Ends w h = Ends-for_each out t _ _ w (λ x w' h'. poll_entry-Ends x w' h') h
