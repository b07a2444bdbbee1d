-- ===== src/Chain.antt =====
-- Transactions on the chain (src/common/blockchain), against what the node answers.
pub mod Nonce
pub mod Retry
pub mod Finality
pub mod Poller
pub mod Termination
