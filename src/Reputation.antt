-- ===== src/Reputation.antt =====
-- decay.ts and the writing half of reputation.service.ts, over the runtime's double arithmetic.
pub mod Decay
pub mod Service
pub mod Frame
