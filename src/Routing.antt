-- ===== src/Routing.antt =====
-- orchestrator/src/solver_routing.ts, in the modules below.
pub mod Book
pub mod Candidate
pub mod Decide
pub mod Order
pub mod Capital
pub mod Eligible
pub mod Backing
pub mod Select
pub mod Reason
pub mod Onboarding
pub mod Dispatch
pub mod Sound
pub mod Live
pub mod Once
pub mod Release
