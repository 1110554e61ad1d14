-- ===== src/Settlement.antt =====
-- orchestrator/src/arbitrum_settlement.ts: the settlement sequence of an intent on Arbitrum, in the
-- modules below. World is the state that the process keeps and what it has done to the outside;
-- Chain, Notes, Sequence, Confirm, Slash and Resume are the code, the others what holds of it.
pub mod World
pub mod Chain
pub mod Notes
pub mod Confirm
pub mod Sequence
pub mod Resume
pub mod Slash
pub mod Reconcile
pub mod Keeps
pub mod Trace
pub mod Sound
pub mod Ends
pub mod Holds
pub mod Lost
