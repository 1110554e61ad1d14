-- ===== src/Listener.antt =====
-- orchestrator/src/listener.ts, in the modules below.
pub mod Payout
pub mod Listed
pub mod Once
pub mod Verify
pub mod Guarded
pub mod Events
pub mod Process
pub mod Sound
pub mod Finalized
pub mod Final
pub mod Created
