-- ===== src/Examples/Verifying.antt =====
-- A job whose proof passes the settle gate, and addresses of TRON.
use ma_at.Prelude.{ℕ, ◌+◌, ◌≡◌, ◌≢◌, refl, true, some, [], ◌∷◌, text, text_eq, addr_key, arith}
use ma_at.Prelude.Dict
use ma_at.SettledLedger.{is_already_settled}
use ma_at.ProofOutput.{ProofOutputJson}
use ma_at.SettleGate.{expected_vkey, solana_chain_id, settle_gate_ok, evaluate_settle_gate}
use ma_at.Settlement.World.{ok, Outside}
use ma_at.Prover.{prove_intent}
use ma_at.Destination.{
  Bytes, base58_check_encode, to_hex, from_hex, base58_digits, ones_for_zeros, big_endian,
  with_checksum, nibble, hex_digit, char_at, take,
}
use ma_at.Destination.Injective.{IsHash, base58_check_encode-ne}
use ma_at.Listener.Payout.{close}
use ma_at.Listener.Verify.{Setup, intent_id_hex, verify_and_settle, failed_checks}
use ma_at.Listener.Guarded.{Guarded, verify_and_settle-Guarded}
use ma_at.Examples.Fixture.{intent, proof, out, cfg, world, empty_ledger, dispatch_deps}

abbrev pub good_proof : ProofOutputJson
good_proof = record proof { vkey = expected_vkey; destination_chain_id = solana_chain_id }

abbrev pub proving : Outside ℕ
proving = record out { proof_json = λ id w. some (some good_proof) }

-- A hash function that is short, and answers with bytes.
abbrev short_hash : Bytes → Bytes
short_hash bs = 1 ∷ 2 ∷ 3 ∷ 4 ∷ []

short_hash-IsHash : IsHash short_hash
short_hash-IsHash = record { bytes = λ bs. omega arith; long = λ bs. omega arith }

abbrev pub setup : Setup ℕ
setup = record {
  config = cfg;
  contract = intent;
  routing = dispatch_deps;
  run_prover = λ tx_hash o. (record { code = 0; stderr_tail = [] }, o + 1000);
  get_block_hash = λ n o. (ok intent, o);
  child = record {
    now_ms = λ o. o;
    spawn = λ env o. o;
    next = λ o. (close (some 0), o);
    go = λ o. o;
  };
  sha256 = short_hash;
  solana_base58 = λ bs. to_hex bs;
}

gate_passes :
    settle_gate_ok (failed_checks proving setup good_proof intent (world empty_ledger)) ≡ true
unfolding settle_gate_ok evaluate_settle_gate text_eq expected_vkey solana_chain_id text addr_key
    is_already_settled Dict.get
gate_passes = refl

verify_and_settle-Guarded_example :
    Guarded proving setup intent
      (world empty_ledger)
      (prove_intent proving setup.run_prover intent (intent_id_hex intent) (world empty_ledger)).1
      (verify_and_settle proving setup 9 intent intent (world empty_ledger)).1
verify_and_settle-Guarded_example =
    verify_and_settle-Guarded proving setup 9 intent intent (world empty_ledger) tt tt

-- The number 0x0001, with its checksum.
encoded : base58_check_encode short_hash (to_hex (0 ∷ 1 ∷ [])) ≡ text "17a2Vco"
unfolding base58_check_encode base58_digits ones_for_zeros big_endian with_checksum from_hex to_hex
    nibble hex_digit char_at take text
encoded = refl

base58_check_encode-ne_example :
    base58_check_encode short_hash (to_hex (65 ∷ 7 ∷ []))
    ≢ base58_check_encode short_hash (to_hex (65 ∷ 8 ∷ []))
base58_check_encode-ne_example =
    base58_check_encode-ne short_hash short_hash-IsHash (65 ∷ 7 ∷ []) (65 ∷ 8 ∷ []) refl
      (omega arith) (omega arith) (λ e. ground (arith, e))
