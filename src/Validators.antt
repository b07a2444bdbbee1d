-- ===== src/Validators.antt =====
-- validators.service.ts; a child has staking-tiers.ts.
pub mod Tiers
pub mod Service
pub mod Ranks
