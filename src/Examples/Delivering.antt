-- ===== src/Examples/Delivering.antt =====
-- A payout script whose parent answers, and whose signature is final at the second look.
use ma_at.Prelude.{
  ℕ, ◌+◌, ◌≡◌, refl, none, some, [], ◌∷◌, if◌then◌else◌, ltb, Text, text, text_eq, to_lower,
  includes, starts_with, or_else,
}
use ma_at.SettleIntent.{
  Process, resolves, printed, heard_go, sent, confirmed, submitted, normalize_proof_hash_hex,
  with_timeout, act, wei_to_lamports, ◌>>=◌, pure,
}
use ma_at.SettleIntent.Confirm.{
  Connection, SignatureStatus, processed, finalized, poll_for_confirmation,
}
use ma_at.SettleIntent.Script.{Env, Client, await_call, run_settlement, run_as_script}
use ma_at.SettleIntent.Script.Delivered.{Delivered}

abbrev status_at : ℕ → SignatureStatus
status_at now = record { err = none; commitment = if ltb now 12000 then processed else finalized }

abbrev connection : Connection ℕ
connection = record {
  poll_interval_ms = 2000;
  timeout_ms = 90000;
  rpc_timeout_ms = 15000;
  now_ms = λ o. o;
  sleep = λ ms o. o + ms;
  get_signature_status = λ sig ms o. (resolves (some (status_at o)), o);
  get_block_height = λ ms o. (resolves 5, o);
}

abbrev started : Process ℕ
started = record { acts = []; outside = 11000 }

abbrev client : Client ℕ Text
client = record {
  connection = connection;
  public_key = λ wallet o. (resolves wallet, o);
  load_wallet = λ o. (resolves tt, o);
  fetch_nonce = λ o. (resolves 1, o);
  get_balance = λ wallet ms o. (resolves 7, o);
  submit_intent = λ nonce lamports wallet expiry o. (resolves (text "tx"), o);
  receive_settlement = λ nonce hash lamports wallet o. (resolves hash, o);
  get_latest_blockhash =
      λ ms o. (resolves (record { blockhash = []; last_valid_block_height = 9 }), o);
  sign = λ tx blockhash. text "5Kx";
  send_raw_transaction = λ sig ms o. (resolves sig, o);
  stdin = λ ms o. (text "GO" ∷ [], o);
}

abbrev env : Env
env = record {
  destination_chain_id = none;
  destination_wallet = none;
  proof_amount_wei = some 3000000000;
  proof_hash_hex = some (text "0xABCDEF0123456789abcdef0123456789abcdef0123456789abcdef0123456789");
}

hash :
    normalize_proof_hash_hex (or_else env.proof_hash_hex [])
    ≡ some (text "abcdef0123456789abcdef0123456789abcdef0123456789abcdef0123456789")
unfolding normalize_proof_hash_hex text to_lower
hash = refl

delivers : run_as_script (run_settlement client 3 env) started ≡ (
  some 0,
  record {
    acts =
        confirmed (text "5Kx")
        ∷ sent (text "5Kx")
        ∷ heard_go
        ∷ printed (text "5Kx")
        ∷ submitted 3
        ∷ [];
    outside = 13000;
  },
)
unfolding run_as_script run_settlement poll_for_confirmation with_timeout act await_call text
    text_eq to_lower normalize_proof_hash_hex wei_to_lamports ◌>>=◌ pure includes starts_with
delivers = refl
