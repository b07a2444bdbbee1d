-- ===== src/CommitReveal.antt =====
-- The commit-reveal rounds (src/modules/commit-reveal): the tally, the service, and their laws.
pub mod Tally
pub mod Service
pub mod Majority
pub mod Committing
pub mod Revealing
pub mod Opening
pub mod Settling
pub mod Finalizing
pub mod Rounds
