-- ===== src/Settlement/Sound/Slashing.antt =====
-- pollAwaitingSlash against the specification of Trace.
use ma_at.Prelude.{
  ℕ, ◌≡◌, refl, Bool, true, false, Option, none, some, ◌∷◌, arith, Text, text_eq_refl, with_0x,
  key_of,
}
use ma_at.ProofOutput.{ProofOutputJson}
use ma_at.ArbitrumLedger.{ArbitrumLedgerEntry, ArbitrumStage, merge}
use ma_at.ArbitrumLedger.Laws.{get_entry-set_stage_self}
use ma_at.SettledLedger.{LedgerEntry, LedgerStatus, settling, settled, get_ledger_entry}
use ma_at.Settlement.World.{
  Outside, slash_solver, checked, TxOutcome, World, Exec, move, ◌>>=◌, now_sec,
}
use ma_at.Settlement.Keeps.{
  keeps-branch, keeps-bind, keeps-pure, keeps-bind-observe, keeps-bind-pure, keeps-bind-modify,
  keeps-bind-looking, keeps-for_each, bind_assoc,
}
use ma_at.Settlement.Chain.{
  Config, check_solana_signature_landed, read_proof_json, send_slash_solver,
}
use ma_at.Settlement.Notes.{report, mirror_display}
use ma_at.Settlement.Slash.{
  landed_by, has_landed, settle_sig, confirm_found, after_look, resume_entry,
  resume_confirm_if_solana_landed, slashing_signed, after_slash, slash_unless, not_due, poll_entry,
  poll_awaiting_slash,
}
use ma_at.Settlement.Trace.{NotLanded, Undelivered, Sound, IsSound, modify-IsSound}
use ma_at.Settlement.Sound.Sending.{Announces, sign_and_send-Sound}
use ma_at.Settlement.Sound.Confirming.{confirm_settlement_with_retry-Sound}
use ma_at.Settlement.Sound.Paying.{keeps-bind-compute}

module _ {W : Type 0} (out : Outside W) (cfg : Config) where
  -- What follows a look at the ledger and at Solana.
  look-Sound :
      {B : Type 0} (st : LedgerStatus) (sig : Option Text) (g : Bool → Exec W B) (w : World W)
      → Sound w.trace
      → ((w' : World W)
          → st ≡ settling
          → NotLanded sig w'.trace
          → w'.settled ≡ w.settled
          → Sound w'.trace
          → Sound (g false w').1.trace)
      → ((w' : World W) → Sound w'.trace → Sound (g true w').1.trace)
      → Sound ((landed_by out cfg st sig >>= g) w).1.trace
  unfolding check_solana_signature_landed
  look-Sound settled sig g w s k k' = keeps-bind-pure IsSound true g w (k' w s)
  look-Sound settling none g w s k k' = keeps-bind-pure IsSound false g w (k w refl tt refl s)
  look-Sound {B} settling (some sig) g w s k k' =
      keeps-bind-observe IsSound (out.signature_landed sig) (checked sig) g w (λ o. s) go
    where
      go :
          (landed : Bool) (o : W)
          → Sound (g landed (record (move o w) { trace = checked sig landed ∷ w.trace })).1.trace
      go true o = k' _ (tt, s)
      go false o = k _ refl (rw text_eq_refl) refl (tt, s)

  settle_sig-quiet :
      (id : Text) (st : LedgerStatus) (sig : Option Text) (w : World W)
      → (settle_sig out cfg id st sig w).trace ≡ w.trace
  settle_sig-quiet id settled sig w = refl
  settle_sig-quiet id settling none w = refl
  settle_sig-quiet id settling (some sig) w = refl

  confirm_found-Sound :
      {B : Type 0} (fuel : ℕ) (id : Text) (e : LedgerEntry) (json : Option ProofOutputJson)
      (f : Bool → Exec W B) (w : World W)
      → Sound w.trace
      → ((w' : World W) → Sound w'.trace → Sound (f true w').1.trace)
      → Sound ((confirm_found out cfg fuel id e json >>= f) w).1.trace
  unfolding report
  confirm_found-Sound fuel id e none f w s k =
      rw bind_assoc (keeps-bind-modify IsSound _ _ w (keeps-bind-pure IsSound true f _ (k _ s)))
  confirm_found-Sound fuel id e (some json) f w s k = rw bind_assoc (
      keeps-bind-compute out IsSound (key_of id) _ w s λ z. rw bind_assoc (
        let confirmed = confirm_settlement_with_retry-Sound out cfg fuel id json z w s in
        keeps-bind IsSound _ _ w confirmed
          λ a e'. keeps-bind-pure IsSound true f _ (k _ confirmed)))

  after_look-Sound :
      {B : Type 0} (fuel : ℕ) (id : Text) (e : LedgerEntry) (f : Bool → Exec W B) (w : World W)
      → Sound w.trace
      → ((w' : World W) → Sound w'.trace → Sound (f true w').1.trace)
      → Sound ((after_look out cfg fuel id e true >>= f) w).1.trace
  after_look-Sound fuel id e f w s k = rw bind_assoc (
      keeps-bind-modify IsSound _ _ w (
        keeps-bind-looking IsSound
          (λ w'. confirm_found out cfg fuel id e (read_proof_json out (key_of id) w')) f _
          (confirm_found-Sound fuel id e _ f (settle_sig out cfg id e.status e.solana_sig w)
            settled_sound k)))
    where
      settled_sound : Sound (settle_sig out cfg id e.status e.solana_sig w).trace
      settled_sound = rw (settle_sig-quiet id e.status e.solana_sig w) s

  resume_entry-Sound :
      {B : Type 0} (fuel : ℕ) (id : Text) (found : Option LedgerEntry) (f : Bool → Exec W B)
      (w : World W)
      → get_ledger_entry id w.settled ≡ found
      → Sound w.trace
      → ((w' : World W)
          → Undelivered (get_ledger_entry id w'.settled) w'.trace
          → Sound w'.trace
          → Sound (f false w').1.trace)
      → ((w' : World W) → Sound w'.trace → Sound (f true w').1.trace)
      → Sound ((resume_entry out cfg fuel id found >>= f) w).1.trace
  unfolding has_landed
  resume_entry-Sound fuel id none f w found s k k' =
      keeps-bind-pure IsSound false f w (k w (rw found tt) s)
  resume_entry-Sound fuel id (some e) f w found s k k' = rw bind_assoc (
      look-Sound e.status e.solana_sig _ w s
        (λ w' st n same s'. keeps-bind-pure IsSound false f w' (k w' (rw (same, found) (st, n)) s'))
        (λ w' s'. after_look-Sound fuel id e f w' s' k'))

  slashing-Announces :
      (id : Text) (w : World W)
      → Undelivered (get_ledger_entry id w.settled) w.trace
      → Announces out (slash_solver id) (slashing_signed out cfg id) w
  unfolding slashing_signed mirror_display merge
  slashing-Announces id w u = record {
    quiet = λ hash o. refl;
    justified = λ hash o.
        rw (get_entry-set_stage_self id ArbitrumStage.slashing _ _ w.ledger) ((refl, refl), u);
  }

  after_slash-quiet :
      (id : Text) (outcome : TxOutcome) (w : World W)
      → (after_slash out cfg id outcome w).trace ≡ w.trace
  unfolding after_slash report mirror_display
  after_slash-quiet id outcome w = ground arith

  slash_unless-Sound :
      (id : Text) (w : World W)
      → Undelivered (get_ledger_entry id w.settled) w.trace
      → Sound w.trace
      → Sound (slash_unless out cfg id false w).1.trace
  unfolding slash_unless send_slash_solver
  slash_unless-Sound id w u s =
      let sent =
        sign_and_send-Sound out cfg.orchestrator_address (slash_solver id) _ w
          (slashing-Announces id w u) s in
      keeps-bind IsSound _ _ w sent
        λ outcome e. modify-IsSound _ _ (after_slash-quiet id outcome _) sent

  averted-Sound :
      (id : Text) (w : World W) → Sound w.trace → Sound (slash_unless out cfg id true w).1.trace
  unfolding slash_unless
  averted-Sound id w s = keeps-pure IsSound tt w s

  poll_entry-Sound :
      (fuel : ℕ) (x : Text × ArbitrumLedgerEntry) (w : World W)
      → Sound w.trace
      → Sound (poll_entry out cfg fuel x w).1.trace
  unfolding poll_entry resume_confirm_if_solana_landed
  poll_entry-Sound fuel (key, e) w s =
      keeps-branch IsSound (not_due out cfg e.expiry (now_sec out w)) _ _
        (λ d. keeps-pure IsSound tt w s)
        (λ d.
          keeps-bind-looking IsSound
            (λ w'.
              resume_entry out cfg fuel (with_0x key) (get_ledger_entry (with_0x key) w'.settled))
            _ w
            (resume_entry-Sound fuel (with_0x key) _ _ w refl s (slash_unless-Sound (with_0x key))
              (averted-Sound (with_0x key))))

  -- The slash poller does nothing unjustified: from a sound trace it leads to a sound trace.
  pub poll-Sound :
      (fuel : ℕ) (w : World W) → Sound w.trace → Sound (poll_awaiting_slash out cfg fuel w).1.trace
  unfolding poll_awaiting_slash
  poll-Sound fuel w s = keeps-for_each IsSound _ _ w (poll_entry-Sound fuel) s
