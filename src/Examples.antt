-- ===== src/Examples.antt =====
-- Concrete runs of the models, and the theorems at concrete inputs.
mod Fixture
mod Settling
mod Ending
mod Landing
mod Proving
mod Rotating
mod Paying
mod Verifying
mod Queueing
mod Delivering
mod Polling
mod Listening
mod Keys
mod Losing
mod Selecting
mod Keeping
mod Scoring
mod Runs
