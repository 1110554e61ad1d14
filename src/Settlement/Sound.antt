-- ===== src/Settlement/Sound.antt =====
-- The specification of Trace along the entry points of arbitrum_settlement.ts, one module for each part
-- of the sequence.
pub mod Sending
pub mod Confirming
pub mod Paying
pub mod Posting
pub mod Slashing
pub mod Booting
