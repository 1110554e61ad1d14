-- ===== src/Listener/Once.antt =====
-- However often runSolanaPayout of orchestrator/src/listener.ts is called for an intent, and wherever the
-- process crashes, one child at most is told to broadcast.
use ma_at.Prelude.{
  ℕ, zero, suc, ◌+◌, ◌≤◌, ◌<◌, ◌≡◌, refl, branch, sym, subst, ap, ◌∙◌, ◌⊎◌, inl, inr, true, false,
  Option, none, some, ◌++◌, Text, arith, ◌==◌,
}
use ma_at.ProofOutput.{ProofOutputJson}
use ma_at.SettledLedger.{
  LedgerStatus, LedgerEntry, settling, settled, is_settled, get_ledger_entry, is_already_settled,
}
use ma_at.SettledLedger.Laws.{Mark, settled_mark, apply_mark}
use ma_at.Settlement.World.{Reply, SolanaPayoutResult, Side}
use ma_at.Listener.Payout.{
  SettleEnv, ChildEvent, stdout, stderr, close, error, Child, Run, no_output, match_sig, handle_sig,
  on_stdout, on_success, on_failure, on_close, on_event, watch, is_settling, settle_env,
  run_solana_payout, review,
}
use ma_at.Listener.Listed.{
  is_some, IsListed, mark-IsListed, mark_settling-IsListed, restart, restart-IsListed,
}

-- How many children have been told to go on, which only `go` changes.
pub record Counts {W : Type 0} (c : Child W) (released : W → ℕ) : Type 0 where
  pub next : (o : W) → released (c.next o).1 ≡ released o
  pub spawn : (env : SettleEnv) (o : W) → released (c.spawn env o) ≡ released o
  pub go : (o : W) → released (c.go o) ≡ suc (released o)

module _ {W : Type 0} (c : Child W) (released : W → ℕ) (counts : Counts c released) where
  -- Nobody was told to go on since a count was taken, or one child was, and its intent is listed.
  abbrev pub AtMostOnce : ℕ → Text → Side W → Type 0
  AtMostOnce k id s =
      (released s.outside ≡ k) ⊎ ((released s.outside ≡ suc k) × IsListed id s.settled)

  abbrev Ends : ℕ → Text → Reply SolanaPayoutResult × Side W → Type 0
  Ends k id x = AtMostOnce k id x.1

  -- The same of a promise that is pending.
  abbrev Pending : ℕ → Text → Run → Side W → Type 0
  Pending k id r s =
      ((released s.outside ≡ k) × (r.sig_handled ≡ false))
      ⊎ ((released s.outside ≡ suc k) × (r.sig_handled ≡ true) × IsListed id s.settled)

  Pending-AtMostOnce :
      (k : ℕ) (id : Text) (r : Run) (s : Side W) → Pending k id r s → AtMostOnce k id s
  Pending-AtMostOnce k id r s (inl h) = inl h.0
  Pending-AtMostOnce k id r s (inr h) = inr (h.0, h.2)

  on_stdout-Pending :
      (k : ℕ) (id d : Text) (r : Run) (s : Side W)
      → Pending k id r s
      → Pending k id (on_stdout c id d r s).0 (on_stdout c id d r s).1
  unfolding on_stdout
  on_stdout-Pending k id d r s h =
      branch (λ rs. Pending k id rs.0 rs.1) r.sig_handled (r', s)
        (handle_sig c id (match_sig (r.settle_out ++ d)) r' s) (λ e. h)
        (λ e. go e h (match_sig (r.settle_out ++ d)))
    where
      r' : Run
      r' = record r { settle_out = r.settle_out ++ d }

      go :
          r.sig_handled ≡ false
          → Pending k id r s
          → (m : Option Text) → Pending k id (handle_sig c id m r' s).0 (handle_sig c id m r' s).1
      go e (inl p) none = inl p
      go e (inl p) (some sig) =
          inr (counts.go _ ∙ ap suc p.0, refl, mark_settling-IsListed id sig _ s.settled)
      go e (inr p) m = cc (e, p.1)

  on_failure-AtMostOnce :
      (k : ℕ) (id : Text) (code : Option ℕ) (r : Run) (s : Side W)
      → AtMostOnce k id s
      → AtMostOnce k id (on_failure c id code r s).1
  on_failure-AtMostOnce k id code r s h = go r.settling_sig
    where
      go : (sig : Option Text) → AtMostOnce k id (review c id sig s)
      go none = h
      go (some sig) = h

  on_success-AtMostOnce :
      (k : ℕ) (id : Text) (r : Run) (s : Side W)
      → AtMostOnce k id s
      → AtMostOnce k id (on_success c id r s).1
  unfolding on_success apply_mark
  on_success-AtMostOnce k id r s (inl h) = inl h
  on_success-AtMostOnce k id r s (inr h) =
      inr (h.0, mark-IsListed id (c.now_ms s.outside) (settled_mark id) s.settled h.1)

  on_close-AtMostOnce :
      (k : ℕ) (id : Text) (code : Option ℕ) (r : Run) (s : Side W)
      → AtMostOnce k id s
      → AtMostOnce k id (on_close c id code r s).1
  unfolding on_close
  on_close-AtMostOnce k id none r s h = on_failure-AtMostOnce k id none r s h
  on_close-AtMostOnce k id (some code) r s h =
      branch (Ends k id) (code == 0) _ _ (λ e. on_success-AtMostOnce k id r s h)
        (λ e. on_failure-AtMostOnce k id (some code) r s h)

  watch-AtMostOnce :
      (k fuel : ℕ) (id : Text) (r : Run) (s : Side W)
      → Pending k id r s
      → AtMostOnce k id (watch c fuel id (r, s)).1
  unfolding watch
  watch-AtMostOnce k zero id r s h = Pending-AtMostOnce k id r s h
  watch-AtMostOnce k (suc fuel) id r s h =
      go (λ r' s' h'. watch-AtMostOnce k fuel id r' s' h') (c.next s.outside).0 moved
    where
      s1 : Side W
      s1 = record s { outside = (c.next s.outside).1 }

      moved : Pending k id r s1
      moved = elim h [
        | inl p ↦ inl (counts.next s.outside ∙ p.0, p.1)
        | inr p ↦ inr (counts.next s.outside ∙ p.0, p.1, p.2)
      ]

      go :
          ((r' : Run) (s' : Side W)
            → Pending k id r' s'
            → AtMostOnce k id (watch c fuel id (r', s')).1)
          → (event : ChildEvent) → Pending k id r s1
          → AtMostOnce k id (on_event c id event (watch c fuel id) r s1).1
      go rest (stdout d) p = rest _ _ (on_stdout-Pending k id d r s1 p)
      go rest (stderr d) p = rest _ _ p
      go rest (close code) p = on_close-AtMostOnce k id code r s1 (Pending-AtMostOnce k id r s1 p)
      go rest (error e) p = Pending-AtMostOnce k id r s1 p

  -- An intent that is listed is settled or settling: no child is started for it.
  listed_guard :
      (o : Option LedgerEntry) → is_some o ≡ true → (is_settled o ≡ true) ⊎ (is_settling c o ≡ true)
  listed_guard none h = cc
  listed_guard (some e) h = go e.status
    where
      go :
          (st : LedgerStatus)
          → ((elim st [ settled ↦ true | settling ↦ false ]) ≡ true)
            ⊎ ((elim st [ settling ↦ true | settled ↦ false ]) ≡ true)
      go settling = inr refl
      go settled = inl refl

  payout-AtMostOnce :
      (k fuel : ℕ) (json : ProofOutputJson) (destination zk_proof_hash : Text) (s : Side W)
      → AtMostOnce k json.intent_id s
      → AtMostOnce k json.intent_id (run_solana_payout c fuel json destination zk_proof_hash s).1
  unfolding run_solana_payout is_already_settled get_ledger_entry
  payout-AtMostOnce k fuel json destination zk_proof_hash s h =
      branch (Ends k json.intent_id) (is_already_settled json.intent_id s.settled) _ _ (λ e. h)
        λ e.
          branch (Ends k json.intent_id) (is_settling c (get_ledger_entry json.intent_id s.settled))
            _ _ (λ e'. h) λ e'. watch-AtMostOnce k fuel json.intent_id no_output _ (started e e' h)
    where
      started :
          is_already_settled json.intent_id s.settled ≡ false
          → is_settling c (get_ledger_entry json.intent_id s.settled) ≡ false
          → AtMostOnce k json.intent_id s
          → Pending k json.intent_id no_output (record s {
            outside = c.spawn (settle_env c json destination zk_proof_hash) s.outside;
          })
      started e e' (inl p) = inl (counts.spawn _ s.outside ∙ p, refl)
      started e e' (inr p) = elim (listed_guard (get_ledger_entry json.intent_id s.settled) p.1.0) [
        | inl q ↦ cc (q, e)
        | inr q ↦ cc (q, e')
      ]

  -- What may happen to the payout of a proof: runSolanaPayout, which may be cut off after any event of
  -- the child; a write of the ledger by another part of the process, for this intent or another; a
  -- restart; and time, in which no child of this intent is told to go on.
  pub data PayoutStep (json : ProofOutputJson) (s s' : Side W) : Type 0 where
    attempt :
        (fuel : ℕ) (destination zk_proof_hash : Text)
        → s' ≡ (run_solana_payout c fuel json destination zk_proof_hash s).1
        → PayoutStep json s s'
    marked :
        (now : ℕ) (m : Mark)
        → s' ≡ record s { settled = apply_mark now m s.settled }
        → PayoutStep json s s'
    restarted : s' ≡ record s { settled = restart s.settled } → PayoutStep json s s'
    elapsed :
        (o : W)
        → released o ≡ released s.outside
        → s' ≡ record s { outside = o }
        → PayoutStep json s s'

  pub data PayoutRun (json : ProofOutputJson) (s : Side W) : Side W → Type 0 where
    none_yet : PayoutRun json s s
    then_step : {u v : Side W} → PayoutRun json s u → PayoutStep json u v → PayoutRun json s v

  step-AtMostOnce :
      (k : ℕ) (json : ProofOutputJson) (s s' : Side W)
      → PayoutStep json s s'
      → AtMostOnce k json.intent_id s
      → AtMostOnce k json.intent_id s'
  step-AtMostOnce k json s s' (attempt fuel destination hash e) h =
      rw e (payout-AtMostOnce k fuel json destination hash s h)
  step-AtMostOnce k json s s' (marked now m e) h =
      subst (AtMostOnce k json.intent_id) (sym e) (go h)
    where
      go :
          AtMostOnce k json.intent_id s
          → AtMostOnce k json.intent_id (record s { settled = apply_mark now m s.settled })
      go (inl p) = inl p
      go (inr p) = inr (p.0, mark-IsListed json.intent_id now m s.settled p.1)
  step-AtMostOnce k json s s' (restarted e) h = subst (AtMostOnce k json.intent_id) (sym e) (go h)
    where
      go :
          AtMostOnce k json.intent_id s
          → AtMostOnce k json.intent_id (record s { settled = restart s.settled })
      go (inl p) = inl p
      go (inr p) = inr (p.0, restart-IsListed json.intent_id s.settled p.1)
  step-AtMostOnce k json s s' (elapsed o q e) h = subst (AtMostOnce k json.intent_id) (sym e) (go h)
    where
      go : AtMostOnce k json.intent_id s → AtMostOnce k json.intent_id (record s { outside = o })
      go (inl p) = inl (q ∙ p)
      go (inr p) = inr (q ∙ p.0, p.1)

  steps-AtMostOnce :
      (k : ℕ) (json : ProofOutputJson) (s s' : Side W)
      → PayoutRun json s s'
      → AtMostOnce k json.intent_id s
      → AtMostOnce k json.intent_id s'
  steps-AtMostOnce k json s s' none_yet h = h
  steps-AtMostOnce k json s s' (then_step {u} {v} us st) h =
      step-AtMostOnce k json u s' st (steps-AtMostOnce k json s u us h)

  -- Along any steps of the payout of a proof, one child at most is told to broadcast; once one was, its
  -- intent stands in the settled ledger and in its file.
  pub pays_once :
      (json : ProofOutputJson) (s s' : Side W)
      → PayoutRun json s s'
      → (released s'.outside ≤ released s.outside + 1)
        × (released s.outside < released s'.outside → IsListed json.intent_id s'.settled)
  pays_once json s s' steps = go (steps-AtMostOnce (released s.outside) json s s' steps (inl refl))
    where
      go :
          AtMostOnce (released s.outside) json.intent_id s'
          → (released s'.outside ≤ released s.outside + 1)
            × (released s.outside < released s'.outside → IsListed json.intent_id s'.settled)
      go (inl e) = (omega (arith, e), λ lt. absurd (omega (arith, e, lt)))
      go (inr h) = (omega (arith, h.0), λ lt. h.1)
