-- ===== src/Examples/Listening.antt =====
-- A process that starts, hears of an intent, proves it, posts its collateral, pays out and confirms,
-- and sees its block finalized.
use ma_at.Prelude.{
  ℕ, if◌then◌else◌, ltb, ◌≡◌, refl, none, some, true, List, [], ◌∷◌, text, text_eq, key_of,
}
use ma_at.Prelude.Dict
use ma_at.IntentState.{read_state, upsert, write_state_file}
use ma_at.IntentState.Setters.{record_intent_created}
use ma_at.IntentStatus.{OnChainIntent, zero_address}
use ma_at.Settlement.World.{ok, Outside, World}
use ma_at.Settlement.Trace.{Sound}
use ma_at.Prover.Queue.{new_queue}
use ma_at.Listener.Events.{
  IntentCreatedLog, arbitrum_sepolia, state_fields, log_intent_created, poll_finality,
  expiry_is_date,
}
use ma_at.Listener.Process.{
  Node, Tick, intent_created, job_runs, finality, slash, settling, run_process,
}
use ma_at.Listener.Process.Sound.{run_process-Sound}
use ma_at.Destination.{decode_destination_wallet}
use ma_at.Listener.Created.{IsRecorded, log_intent_created-IsRecorded}
use ma_at.Listener.Finalized.{finalize_found}
use ma_at.Listener.Final.{poll_finality-finalize}
use ma_at.Examples.Fixture.{intent, on_chain, solver_one, out, world, empty_ledger}
use ma_at.Examples.Verifying.{setup, proving}

abbrev node : Node ℕ
node = record {
  get_finalized = λ o. (ok (some 8), o);
  get_block_number = λ o. (ok 9, o);
  default_solver = solver_one;
}

abbrev log : IntentCreatedLog
log = record {
  intent_id = intent;
  amount = 1000;
  token_address = intent;
  destination_wallet = intent;
  destination_chain_id = 1;
  expiry = 5000;
  transaction_hash = some intent;
  block_number = some 7;
  block_hash = none;
}

abbrev ticks : List Tick
ticks = intent_created log arbitrum_sepolia ∷ job_runs ∷ settling ∷ slash ∷ finality ∷ []

-- The intent is open until the collateral is mined: the prover ends at 101000, and the transaction
-- takes another second.
abbrev chain_at : ℕ → OnChainIntent
chain_at now = if ltb now 102000 then record on_chain { solver = zero_address } else on_chain

abbrev settling_out : Outside ℕ
settling_out = record proving { read_intent = λ id now. (ok (chain_at now), now) }

run_process-Sound_example :
    Sound (run_process settling_out setup node 9 ticks (world empty_ledger)).trace
run_process-Sound_example =
    run_process-Sound settling_out setup node 9 ticks (world empty_ledger) tt

log_intent_created-IsRecorded_example :
    IsRecorded
      (decode_destination_wallet setup.sha256 setup.solana_base58 log.destination_wallet
        log.destination_chain_id)
      log
      arbitrum_sepolia
      new_queue
      (
        (log_intent_created out setup log arbitrum_sepolia
            (world empty_ledger, new_queue)).0.states,
        (log_intent_created out setup log arbitrum_sepolia (world empty_ledger, new_queue)).1,
      )
log_intent_created-IsRecorded_example =
    log_intent_created-IsRecorded out setup log arbitrum_sepolia (world empty_ledger) new_queue
      dated tt
  where
    dated : expiry_is_date 5000 ≡ true
    dated = unfold expiry_is_date in refl

-- The world once the intent is on file.
abbrev listed : World ℕ
listed = (log_intent_created out setup log arbitrum_sepolia (world empty_ledger, new_queue)).0

poll_finality-finalize_example :
    read_state intent (poll_finality out node.get_finalized listed).states
    ≡ finalize_found 100000 8 (read_state intent listed.states)
unfolding log_intent_created expiry_is_date text_eq text state_fields record_intent_created upsert
    write_state_file Dict.set Dict.get key_of
poll_finality-finalize_example =
    poll_finality-finalize out node.get_finalized 8 100000 intent listed refl (refl, tt) (refl, tt)
