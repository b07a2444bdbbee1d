-- ===== src/Disputes.antt =====
-- Disputes and their appeals (src/modules/disputes).
pub mod Service
pub mod Quorum
pub mod Appeals
pub mod Opening
pub mod Closing
pub mod Evidence
pub mod Attaching
pub mod Decisions
pub mod Resolving
pub mod Resolved
pub mod Deciding
