-- ===== src/Listener/Payout.antt =====
-- runSolanaPayout of orchestrator/src/listener.ts: the child process that pays, and the handshake by
-- which it waits until its signature is on record. The child is a parameter.
use ma_at.Prelude.{
  ℕ, zero, suc, ◌==◌, Bool, true, false, Option, none, some, [], ◌∷◌, ◌++◌, if◌then◌else◌, length,
  Text, text, starts_with, show_ℕ, or_else,
}
use ma_at.Redact.{is_space}
use ma_at.ProofOutput.{ProofOutputJson}
use ma_at.SettledLedger.{
  LedgerEntry, settling, settled, get_ledger_entry, is_already_settled, mark_settling, mark_settled,
}
use ma_at.IntentState.{StateDir}
use ma_at.IntentState.Setters.{set_settling, set_settled, set_unconfirmed_needs_review}
use ma_at.Settlement.World.{Reply, ok, unfinished, SolanaPayoutResult, Side}
use ma_at.Destination.{drop}
use ma_at.Prover.{trim_start, trim_end}

-- What the child does next, as its parent sees it. `close` has no code if a signal ended the child.
pub data ChildEvent : Type 0 where
  stdout stderr : Text → ChildEvent
  close : Option ℕ → ChildEvent
  error : Text → ChildEvent

-- The environment that the child gets besides the parent's own.
pub record SettleEnv : Type 0 where
  pub destination_wallet : Text
  pub destination_chain_id : ℕ
  pub proof_amount_wei : ℕ
  pub intent_id : Text
  pub proof_hash_hex : Text

-- The child: `spawn`, its next event, and `stdin.end("GO\n")`.
pub record Child (W : Type 0) : Type 0 where
  pub now_ms : W → ℕ
  pub spawn : SettleEnv → W → W
  pub next : W → ChildEvent × W
  pub go : W → W

-- The variables of the promise.
pub record Run : Type 0 where
  pub settle_out : Text
  pub settle_err : Text
  pub sig_handled : Bool
  pub settling_sig : Option Text

abbrev pub no_output : Run
no_output = record { settle_out = []; settle_err = []; sig_handled = false; settling_sig = none }

-- `\S+` at the start of a text.
unfoldable pub nonspace : Text → Text
nonspace [] = []
nonspace (c ∷ t) = let rest = nonspace t in if is_space c then [] else c ∷ rest

abbrev pub marker : Text
marker = text "SETTLING_SIG:"

abbrev pub match_here : Text → Option Text → Option Text
match_here [] later = later
match_here (c ∷ t) later = some (c ∷ t)

-- `out.match(/SETTLING_SIG:(\S+)/)?.[1]`
unfoldable pub match_sig : Text → Option Text
unfolding nonspace
match_sig [] = none
match_sig (c ∷ t) =
    let later = match_sig t in
    if starts_with marker (c ∷ t)
    then match_here (nonspace (drop (length marker) (c ∷ t))) later
    else later

abbrev pub failure : Text → SolanaPayoutResult
failure reason = record { ok = false; sig = none; error = some reason }

abbrev pub code_text : Option ℕ → Text
code_text none = text "null"
code_text (some code) = show_ℕ code

pub failed_reason : Option ℕ → Text → Text
failed_reason code settle_err =
    text "settlement script failed (code "
    ++ (code_text code ++ (text "): " ++ trim_start (trim_end settle_err)))

module _ {W : Type 0} (c : Child W) where
  abbrev pub write : (ℕ → StateDir → StateDir) → Side W → Side W
  write set s = record s { states = set (c.now_ms s.outside) s.states }

  -- What follows the line of the signature: it is on record before the child may go on.
  unfoldable pub record_sig : Text → Text → Side W → Side W
  record_sig id sig s =
      let marked : Side W = record s {
        settled = mark_settling id sig (c.now_ms s.outside) s.settled;
      } in
      let shown = write (set_settling id sig) marked in
      record shown { outside = c.go shown.outside }

  abbrev pub handle_sig : Text → Option Text → Run → Side W → Run × Side W
  handle_sig id none r s = (r, s)
  handle_sig id (some sig) r s =
      (record r { sig_handled = true; settling_sig = some sig }, record_sig id sig s)

  unfoldable pub on_stdout : Text → Text → Run → Side W → Run × Side W
  unfolding record_sig match_sig
  on_stdout id d r s =
      let r' : Run = record r { settle_out = r.settle_out ++ d } in
      if r.sig_handled then (r', s) else handle_sig id (match_sig r'.settle_out) r' s

  abbrev pub review : Text → Option Text → Side W → Side W
  review id none s = s
  review id (some sig) s = write (set_unconfirmed_needs_review id sig) s

  unfoldable pub on_success : Text → Run → Side W → Reply SolanaPayoutResult × Side W
  on_success id r s =
      let marked : Side W = record s { settled = mark_settled id (c.now_ms s.outside) s.settled } in
      (
        ok (record { ok = true; sig = r.settling_sig; error = none }),
        write (set_settled id (or_else r.settling_sig (text "unknown"))) marked,
      )

  abbrev pub on_failure : Text → Option ℕ → Run → Side W → Reply SolanaPayoutResult × Side W
  on_failure id code r s =
      (ok (failure (failed_reason code r.settle_err)), review id r.settling_sig s)

  unfoldable pub on_close : Text → Option ℕ → Run → Side W → Reply SolanaPayoutResult × Side W
  unfolding on_success
  on_close id none r s = on_failure id none r s
  on_close id (some code) r s =
      if code == 0 then on_success id r s else on_failure id (some code) r s

  -- One event, and with `rest` what follows it.
  unfoldable pub on_event :
      Text
      → ChildEvent
      → (Run × Side W → Reply SolanaPayoutResult × Side W)
      → Run
      → Side W
      → Reply SolanaPayoutResult × Side W
  unfolding on_stdout on_close
  on_event id (stdout d) rest r s = rest (on_stdout id d r s)
  on_event id (stderr d) rest r s = rest (record r { settle_err = r.settle_err ++ d }, s)
  on_event id (close code) rest r s = on_close id code r s
  on_event id (error e) rest r s = (ok (failure (text "failed to spawn settler: " ++ e)), s)

  -- The events of the child, of which the parent sees as many as there is fuel: a parent that ends
  -- before the child does is one whose fuel is out.
  unfoldable pub watch : ℕ → Text → Run × Side W → Reply SolanaPayoutResult × Side W
  unfolding on_event
  watch zero id (r, s) = (unfinished, s)
  watch (suc fuel) id (r, s) =
      let (event, o) = c.next s.outside in
      on_event id event (watch fuel id) r (record s { outside = o })

  abbrev pub is_settling : Option LedgerEntry → Bool
  is_settling none = false
  is_settling (some e) = elim e.status [ settling ↦ true | settled ↦ false ]

  unfoldable pub settle_env : ProofOutputJson → Text → Text → SettleEnv
  settle_env json payout_destination zk_proof_hash = record {
    destination_wallet = payout_destination;
    destination_chain_id = json.destination_chain_id;
    proof_amount_wei = json.amount;
    intent_id = json.intent_id;
    proof_hash_hex = zk_proof_hash;
  }

  unfoldable pub run_solana_payout :
      ℕ → ProofOutputJson → Text → Text → Side W → Reply SolanaPayoutResult × Side W
  unfolding watch settle_env
  run_solana_payout fuel json payout_destination zk_proof_hash s =
      if is_already_settled json.intent_id s.settled
      then (ok (record { ok = true; sig = none; error = none }), s)
      else if is_settling (get_ledger_entry json.intent_id s.settled)
      then (
        ok (
            failure (
              text
                "already mid-settlement per local ledger — refusing to re-invoke settle_intent.js")),
        s,
      )
      else watch fuel json.intent_id (
        no_output,
        record s { outside = c.spawn (settle_env json payout_destination zk_proof_hash) s.outside },
      )
