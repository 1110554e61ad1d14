-- ===== src/Lib.antt =====
-- Verification of the Ma'at orchestrator, the TypeScript program under orchestrator/src.
--
-- A user locks funds in IntentManager on Arbitrum. The orchestrator proves the event, and then settles:
-- a solver posts collateral, the user is paid on Solana, and the settlement is confirmed on Arbitrum. A
-- solver that does not deliver is slashed. The development models the part that holds money: the
-- settlement sequence with what resumes and reconciles it, the ledgers that survive a crash, the
-- choice of the solver and the capital reserved with it, and the solvers' track records.
--
-- Files and the code they model:
-- - Prelude: shared names and lemmas. Texts are lists of character codes; `key_of` and `addr_key` are
--   `keyOf` and `addrKey`; `Dict` is a map with string keys in insertion order; the integers stand for
--   balances that may go below zero.
-- - Redact: `redact` of redact.ts, its two patterns as passes over the text.
-- - IntentStatus, ProofOutput: intent_status.ts, `OnChainIntent` of arbitrum_settlement.ts and
--   `ProofOutputJson` of prover_pipeline.ts.
-- - ArbitrumLedger: arbitrum_ledger.ts. The map and its file are two fields of one record, and every
--   write sets both. Laws: a stage write; Views: the four listings.
-- - IntentState: intent_state.ts, over a directory of files. Setters: the setters; Calls: the setters as
--   one type; WellNamed and Stages: what holds of all of them.
-- - SettledLedger: the ledger of Solana payouts in prover_pipeline.ts. Laws: any sequence of its writes.
-- - Settling: `reconcileSettlingLedger` of prover_pipeline.ts. Landed: what it reports.
-- - Prover: `proveIntent` of prover_pipeline.ts, at most three runs of the prover, each a call of a
--   parameter. Verdict: what the intent's file says afterwards. Queue: `ProverQueue`; Queue/Fifo: its
--   order.
-- - SettleGate: `evaluateSettleGate` of prover_pipeline.ts. Checks: when it passes.
-- - Gate: `evaluateArbitrumGate` of arbitrum_settlement.ts. Checks: when it passes.
-- - SolverStats: solver_stats.ts. Known: the identifiers; Record: `readSolverRecord`; Tier:
--   `computeTier` and `tierCapWei`; Counts: the counts written out; Single, Tally and TrackRecord: that
--   the records are these counts; Tiers: the order of the tiers.
-- - Routing: solver_routing.ts. Onboarding: `loadOnboardingTiers`; Book: `ReservationBook`; Candidate
--   and Decide: `decide`; Reason: its texts; Dispatch: `selectSolver` and `dispatchArbitrumSettlement`; Order, Capital, Eligible, Backing,
--   Select, Sound, Live, Release and Once: their theorems.
-- - Settlement: arbitrum_settlement.ts. World: the state of the process and the outside; Chain:
--   `signAndSend`, `buildRealDeps` and the readings; Notes: alerts and the mirrored display; Confirm:
--   `confirmSettlementWithRetry`; Sequence: `runArbitrumSettlementSequence`; Resume:
--   `resumeCollateralPostedIntent`; Slash: `pollAwaitingSlash`; Reconcile: `reconcileArbitrumLedger`;
--   Keeps: rules for actions; Trace and Sound: the specification and its theorems; Ends:
--   termination; Holds: the reservation book along the sequence; Lost: a posting whose receipt never
--   comes.
-- - Rpc: rpc_rotation.ts, the rotation order. Transport: an HTTP attempt, the sweep and the request;
--   Spin, Order, Answers and Calls: their theorems.
-- - Destination: the decoding of destination wallets in listener.ts, with base58 and checksum.
--   Injective: no two buffers share a text.
-- - Listener: listener.ts. Payout: `runSolanaPayout`, whose child process is a parameter; Verify: the job
--   that `triggerZKVerification` queues; Events: the handler of IntentCreated and the finality poller;
--   Process: main and its timers, as a sequence of steps that run to their ends. Listed, Once,
--   Guarded, Sound, Process/Sound, Finalized, Final and Created: their theorems.
-- - SettleIntent: settle_intent.js, the child process. Confirm: `pollForConfirmation`; Script:
--   `runSettlement` and `runAsScript`; Ensures, Ends and Script/Delivered: rules and theorems.
-- - Tron: tron_listener.ts, the calls of TronGrid and the cursor of each event. Once: its theorems.
-- - SolverKeys: the solvers' keys in the environment, of arbitrum_settlement.ts. Collect: the loop over the
--   numbered keys; Resolve: the check of the addresses.
-- - Examples: the theorems at concrete inputs, and test runs.
--
-- How state is modelled. An action takes the world and returns a reply (a value, a thrown error, or
-- `unfinished` when its fuel is out) with the next world. The chains, the clock, the proof files and the
-- payout are functions of the parameter `Outside` or arguments; only the theorems on termination assume
-- something of what they answer.
-- The world keeps a trace of what the process did outside of it and learnt there; each broadcast stands
-- in the trace with the entries that the ledgers had for its intent at that moment. A trace is sound if
-- every broadcast was on record with its stage and its hash, every confirmation was sent after a
-- latest reading that shows the intent neither Settled, Slashed nor Refunded, every payout after a
-- latest reading that shows the intent Pending with the paying solver's collateral, and every slash
-- while no payout was known to have reached the user.
--
-- Bounds. The two retry loops of the settlement take fuel, one unit for each round; a run that
-- exhausts it answers `unfinished`, and the theorems on traces hold of such runs too. With delays
-- of a millisecond at least, one unit for each millisecond up to the deadline of the confirmation
-- is enough, on a clock as `Ticks` in Settlement/Ends describes it. So do pollForConfirmation of the
-- payout script, for which SettleIntent/Ends says how much is enough, and the events of a child
-- process, of which a parent may not see the end. The loop over the numbered keys has fuel for each
-- variable, which Collect proves to be enough, and the loop of base58 as much as its number. All
-- other loops are structural.
-- Amounts are unbounded, as `bigint` is; a success rate is a quotient of two counts,
-- which the code keeps as a double.
--
-- Not modelled: the subscriptions of the listeners and when a timer is due, the inside of the prover, the
-- environment but for the solvers' keys, the contracts, the Solana program and the ZK program.
-- Writes of local files are taken to succeed. Actions run one after the other: the steps of
-- two intents do not interleave, and selections do not overlap, which is what the mutex of the
-- reservation book is for.
pub mod Prelude
pub mod Redact
pub mod ArbitrumLedger
pub mod IntentState
pub mod IntentStatus
pub mod ProofOutput
pub mod Gate
pub mod SettledLedger
pub mod SettleGate
pub mod Routing
pub mod Settlement
pub mod Settling
pub mod Prover
pub mod Rpc
pub mod Destination
pub mod Listener
pub mod SettleIntent
pub mod Tron
pub mod SolverStats
pub mod SolverKeys
mod Examples
