-- ===== src/SettleIntent/Script.antt =====
-- runSettlement and runAsScript of orchestrator/settle_intent.js. The wallet, the program's accounts and
-- transactions, and the connection are parameters; the lines on the console are left out but for the
-- one that the parent waits for.
pub mod Delivered
use ma_at.Prelude.{
  ℕ, suc, ◌+◌, ◌-◌, ◌/◌, Bool, true, false, not, ◌||◌, Option, none, some, List, [], ◌∷◌, ◌++◌,
  if◌then◌else◌, Text, text, includes, text_eq, or_else, show_ℕ,
}
use ma_at.SettleIntent.{
  Outcome, done, threw, exits, unfinished, Act, printed, heard_go, sent, submitted, Process, Script,
  pure, throw, exit, ◌>>=◌, ◌>>◌, act, Call, resolves, rejects, hangs, with_timeout,
  default_rpc_timeout_ms, wei_to_lamports, normalize_proof_hash_hex,
}
use ma_at.SettleIntent.Confirm.{Connection, poll_for_confirmation}

-- The environment variables that it reads; an empty one counts as missing.
pub record Env : Type 0 where
  pub destination_chain_id : Option Text
  pub destination_wallet : Option Text
  pub proof_amount_wei : Option ℕ
  pub proof_hash_hex : Option Text

pub record Block : Type 0 where
  pub blockhash : Text
  pub last_valid_block_height : ℕ

-- The Solana side. `Tx` are transactions that are not signed yet.
pub record Client (W : Type 0) (Tx : Type 0) : Type 0 where
  pub connection : Connection W
  pub public_key : Text → W → Call Text × W
  pub load_wallet : W → Call Unit × W
  pub fetch_nonce : W → Call ℕ × W
  pub get_balance : Text → ℕ → W → Call ℕ × W
  pub submit_intent : ℕ → ℕ → Text → ℕ → W → Call Text × W
  pub receive_settlement : ℕ → Text → ℕ → Text → W → Call Tx × W
  pub get_latest_blockhash : ℕ → W → Call Block × W
  pub sign : Tx → Text → Text  -- the signature, over the transaction with its blockhash
  pub send_raw_transaction : Text → ℕ → W → Call Text × W
  pub stdin : ℕ → W → List Text × W  -- the chunks that arrive in so many milliseconds

unfoldable pub solana_chain_id : Text
unfolding text
solana_chain_id = text "1399811149"

unfoldable pub treasury : Text
unfolding text
treasury = text "C9CZZFbeJ2Vzj9w8ctcsYKyK4mLQNq2vvsGwPJ7uEHtd"

-- An await with no timeout.
abbrev pub settles : {A : Type 0} → Call A → Outcome A
settles (resolves a) = done a
settles (rejects e) = threw e
settles hangs = unfinished

unfoldable pub await_call : {W A : Type 0} → (W → Call A × W) → Script W A
await_call call p = let (r, o) = call p.outside in (settles r, record p { outside = o })

unfoldable pub says_go : List Text → Bool
says_go [] = false
says_go (chunk ∷ chunks) = includes (text "GO") chunk || says_go chunks

abbrev pub go_timeout_ms : ℕ
go_timeout_ms = 30000

pub go_message : Text
go_message = text "timed out after 30000ms waiting for GO from orchestrator"

abbrev pub heard : {W : Type 0} → Bool → Script W Unit
heard true = act heard_go
heard false = throw go_message

module _ {W Tx : Type 0} (c : Client W Tx) where
  unfoldable pub wait_for_go : Script W Unit
  unfolding says_go
  wait_for_go p =
      let (chunks, o) = c.stdin go_timeout_ms p.outside in
      heard (says_go chunks) (record p { outside = o })

  abbrev pub timed : {A : Type 0} → (ℕ → W → Call A × W) → Text → Script W A
  timed call label = with_timeout call default_rpc_timeout_ms label

  -- From the signature on.
  unfoldable pub hand_over : ℕ → Text → ℕ → Script W Unit
  unfolding wait_for_go
  hand_over fuel sig last_valid = do
    act (printed sig)
    wait_for_go
    act (sent sig)
    timed (c.send_raw_transaction sig) (text "sendRawTransaction")
    poll_for_confirmation c.connection fuel sig last_valid

  unfoldable pub release : ℕ → Text → Text → ℕ → Script W Unit
  unfolding hand_over
  release fuel hash destination lamports = do
    nonce_after ← await_call c.fetch_nonce
    tx ← await_call (c.receive_settlement (nonce_after - 1) hash lamports destination)
    block ← timed c.get_latest_blockhash (text "getLatestBlockhash")
    hand_over fuel (c.sign tx block.blockhash) block.last_valid_block_height

  -- `submitIntent(...).rpc()` sends its own transaction, without a handshake.
  unfoldable pub escrow_and_release : ℕ → Text → Text → ℕ → Script W Unit
  unfolding release
  escrow_and_release fuel hash destination lamports = do
    await_call c.load_wallet
    nonce ← await_call c.fetch_nonce
    before ← timed (c.get_balance destination) (text "getBalance(before)")
    act (submitted lamports)
    await_call
        (λ o. c.submit_intent nonce lamports destination (c.connection.now_ms o / 1000 + 3600) o)
    release fuel hash destination lamports
    timed (c.get_balance destination) (text "getBalance(after)")
    pure tt

  abbrev pub with_hash : ℕ → Text → ℕ → Option Text → Script W Unit
  with_hash fuel destination lamports none = exit 1
  with_hash fuel destination lamports (some hash) =
      escrow_and_release fuel hash destination lamports

  abbrev pub with_amount : ℕ → Text → Option ℕ → Option Text → Script W Unit
  with_amount fuel destination none hash = exit 1
  with_amount fuel destination (some wei) hash =
      with_hash fuel destination (wei_to_lamports wei) (normalize_proof_hash_hex (or_else hash []))

  unfoldable pub run_settlement : ℕ → Env → Script W Unit
  unfolding escrow_and_release solana_chain_id treasury
  run_settlement fuel env p =
      if text_eq (or_else env.destination_chain_id solana_chain_id) solana_chain_id
      then (await_call (c.public_key (or_else env.destination_wallet treasury)) >>= λ destination.
            with_amount fuel destination env.proof_amount_wei env.proof_hash_hex)
          p
      else exit 0 p

-- The exit code of a process that has ended.
unfoldable pub exit_code : {A : Type 0} → Outcome A → Option ℕ
exit_code (done a) = some 0
exit_code (threw e) = some 1
exit_code (exits code) = some code
exit_code unfinished = none

unfoldable pub run_as_script : {W A : Type 0} → Script W A → Process W → Option ℕ × Process W
unfolding exit_code
run_as_script main p = let (r, p') = main p in (exit_code r, p')
