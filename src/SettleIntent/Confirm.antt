-- ===== src/SettleIntent/Confirm.antt =====
-- pollForConfirmation of orchestrator/settle_intent.js: the status of a signature, polled until it is final,
-- the blockhash has expired, or the deadline has passed.
use ma_at.Prelude.{
  ℕ, zero, suc, ◌+◌, Bool, true, false, Option, none, some, ◌++◌, ltb, leb, if◌then◌else◌, Text,
  text, show_ℕ,
}
use ma_at.SettleIntent.{
  done, unfinished, confirmed, Script, throw, ◌>>=◌, ◌>>◌, act, Call, with_timeout,
}

-- `value.confirmationStatus`
pub data Commitment : Type 0 where
  processed confirmed_status finalized : Commitment

-- `value` of getSignatureStatus: the JSON of its error, and how far it is.
pub record SignatureStatus : Type 0 where
  pub err : Option Text
  pub commitment : Commitment

-- The options, and the connection with its clock and timer.
pub record Connection (W : Type 0) : Type 0 where
  pub poll_interval_ms : ℕ
  pub timeout_ms : ℕ
  pub rpc_timeout_ms : ℕ
  pub now_ms : W → ℕ
  pub sleep : ℕ → W → W
  pub get_signature_status : Text → ℕ → W → Call (Option SignatureStatus) × W
  pub get_block_height : ℕ → W → Call ℕ × W

abbrev is_final : Commitment → Bool
is_final processed = false
is_final confirmed_status = true
is_final finalized = true

pub failed_message : Text → Text → Text
failed_message signature err =
    text "transaction " ++ (signature ++ (text " failed on-chain: " ++ err))

pub expired_message : Text → ℕ → ℕ → Text
expired_message signature height last =
    text "blockhash expired before "
    ++ (signature
        ++ (text " confirmed (height "
            ++ (show_ℕ height ++ (text " > lastValidBlockHeight " ++ (show_ℕ last ++ text ")")))))

pub timed_out_message : Text → ℕ → Text
timed_out_message signature ms =
    text "timed out after "
    ++ (show_ℕ ms ++ (text "ms waiting for " ++ (signature ++ text " to confirm")))

module _ {W : Type 0} (c : Connection W) (signature : Text) (last_valid : ℕ) (deadline : ℕ) where
  unfoldable pub sleep_interval : Script W Unit
  sleep_interval p = (done tt, record p { outside = c.sleep c.poll_interval_ms p.outside })

  -- What follows the block height, with `again` for the next round.
  unfoldable pub after_height : Script W Unit → ℕ → Script W Unit
  unfolding sleep_interval
  after_height again height p =
      if ltb last_valid height
      then throw (expired_message signature height last_valid) p
      else if leb deadline (c.now_ms p.outside)
      then throw (timed_out_message signature c.timeout_ms) p
      else (sleep_interval >> again) p

  unfoldable pub check_height : Script W Unit → Script W Unit
  unfolding after_height
  check_height again =
      with_timeout c.get_block_height c.rpc_timeout_ms (text "getBlockHeight")
      >>= after_height again

  abbrev pub by_commitment : Script W Unit → Commitment → Script W Unit
  by_commitment again commitment =
      if is_final commitment then act (confirmed signature) else check_height again

  unfoldable pub after_status : Script W Unit → Option SignatureStatus → Script W Unit
  unfolding check_height
  after_status again none = check_height again
  after_status again (some value) = elim value.err [
    | some err ↦ throw (failed_message signature err)
    | none ↦ by_commitment again value.commitment
  ]

  unfoldable pub poll : ℕ → Script W Unit
  unfolding after_status
  poll zero p = (unfinished, p)
  poll (suc fuel) p =
      (with_timeout (c.get_signature_status signature) c.rpc_timeout_ms
            (text "getSignatureStatus(" ++ (signature ++ text ")"))
          >>= after_status (poll fuel))
        p

unfoldable pub poll_for_confirmation : {W : Type 0} → Connection W → ℕ → Text → ℕ → Script W Unit
unfolding poll
poll_for_confirmation c fuel signature last_valid p =
    poll c signature last_valid (c.now_ms p.outside + c.timeout_ms) fuel p
