-- ===== src/Examples/Fixture.antt =====
-- A small outside: its state is the clock in milliseconds, the chain has one intent that a solver has
-- collateral on, and every transaction is mined.
use ma_at.Prelude.{ℕ, ◌+◌, true, false, none, some, [], ◌∷◌, Text, text}
use ma_at.IntentStatus.{OnChainIntent, intent_status_pending, zero_address}
use ma_at.ProofOutput.{ProofOutputJson}
use ma_at.ArbitrumLedger.{Ledger, ArbitrumLedgerEntry, ArbitrumStage, no_routing, load_ledger}
use ma_at.SolverStats.Tier.{default_tier_config, default_tier_cap_pct}
use ma_at.Routing.Candidate.{Policy}
use ma_at.Routing.Dispatch.{DispatchDeps}
use ma_at.Settlement.World.{Reply, ok, success, Outside, Side, World, SolanaPayoutResult}
use ma_at.Settlement.Chain.{Config, Deps, build_real_deps}

abbrev pub intent : Text
intent = 48 ∷ 120 ∷ 97 ∷ 49 ∷ []  -- 0xa1

abbrev pub solver_one : Text
solver_one = 48 ∷ 120 ∷ 83 ∷ 49 ∷ []  -- 0xS1

abbrev pub solver_two : Text
solver_two = 48 ∷ 120 ∷ 83 ∷ 50 ∷ []  -- 0xS2

abbrev pub on_chain : OnChainIntent
on_chain = record {
  owner = solver_two;
  amount = 1000;
  token_address = zero_address;
  status = intent_status_pending;
  solver = solver_one;
  collateral_posted = 1500;
}

abbrev pub proof : ProofOutputJson
proof = record {
  tx_hash = intent;
  mode = text "prove";
  vkey = intent;
  block_hash = intent;
  block_number = 7;
  block_timestamp = 0;
  contract = intent;
  intent_id = intent;
  sender = solver_two;
  amount = 1000;
  token_address = zero_address;
  destination_wallet = intent;
  destination_chain_id = 1;
  expiry = 5000;
  slippage_bps = 0;
}

abbrev pub out : Outside ℕ
out = record {
  now_ms = λ w. w;
  sleep = λ ms w. w + ms;
  get_balance = λ solver w. (ok 1000000, w);
  read_intent = λ id w. (ok on_chain, w);
  sign = λ from tx w. (ok intent, w);
  send_and_wait = λ hash w. (ok success, w + 1000);
  get_receipt = λ hash w. (ok success, w);
  signature_landed = λ sig w. (ok false, w);
  proof_json = λ id w. some (some proof);
  proof_bin = λ id w. some intent;
}

abbrev pub cfg : Config
cfg = record {
  orchestrator_address = solver_two;
  max_transfer_wei = 100000;
  delivery_margin_sec = 600;
  arbitrum_gas_buffer_wei = 10;
  solana_payout_retry_interval_ms = 30000;
  post_collateral_verify_attempts = 3;
  post_collateral_verify_delay_ms = 2000;
  confirm_retry_backoff_ms = 5000 ∷ [];
  confirm_retry_max_sec_after_expiry = 3600;
}

abbrev pub pay : Text → Side ℕ → Reply SolanaPayoutResult × Side ℕ
pay zk_proof_hash s = (ok (record { ok = true; sig = some intent; error = none }), s)

abbrev pub deps : Deps ℕ
deps = build_real_deps out cfg solver_one pay

abbrev pub awaiting : ArbitrumLedgerEntry
awaiting = record {
  stage = ArbitrumStage.awaiting_expiry_slash;
  routing = no_routing;
  collateral_tx_hash = some intent;
  confirm_tx_hash = none;
  slash_tx_hash = none;
  expiry = some 1;
  solver = some solver_one;
  updated_at = 0;
}

abbrev pub world : Ledger → World ℕ
world ledger = record {
  ledger = ledger;
  book = [];
  reservation_resolved = false;
  trace = [];
  side = record {
    settled = record { entries = []; file = [] };
    states = [];
    alerts = [];
    outside = 100000;
  };
}

abbrev pub empty_ledger : Ledger
empty_ledger = load_ledger none

-- The ledger with the intent at one stage.
abbrev pub ledger_at : ArbitrumStage → Ledger
ledger_at stage = load_ledger (some ((97 ∷ 49 ∷ [], record awaiting { stage = stage }) ∷ []))

abbrev pub policy : Policy
policy = record {
  max_transfer_wei = 100000;
  gas_buffer_wei = 10;
  delivery_margin_sec = 600;
  tier_config = default_tier_config;
  tier_cap_pct = default_tier_cap_pct;
  get_onboarding_tier = λ solver. 3;
}

abbrev pub dispatch_deps : DispatchDeps ℕ
dispatch_deps = record {
  candidates = solver_one ∷ solver_two ∷ [];
  is_approved = λ solver w. (ok true, w);
  get_balance_wei = λ solver w. (ok 1000000, w);
  get_solver_records = λ w. (ok (record { records = []; errors = []; complete = true }), w);
  policy = policy;
  reservation_hold_ms = 30000;
  build_settlement_deps = λ solver. build_real_deps out cfg solver pay;
}
