-- ===== src/SolverStats.antt =====
-- orchestrator/src/solver_stats.ts: the track record of each solver, read from the chain through a
-- cache of terminal intents, and the tier and the cap that follow from it.
pub mod Known
pub mod Record
pub mod Tier
pub mod Tally
pub mod Counts
pub mod Single
pub mod TrackRecord
pub mod Tiers
