-- ===== src/Slashing.antt =====
-- The slashing proposals (src/modules/slashing).
pub mod Service
pub mod Amounts
pub mod Deciding
pub mod Executing
pub mod Approval
pub mod Proposing
pub mod Frame
