-- ===== src/Coordinator.antt =====
-- The coordinator (src/modules/coordinator) and the weighted draw of staking-tiers.ts.
pub mod Draw
pub mod Service
pub mod Fairness
