-- ===== src/Tests.antt =====
-- Runs of the model at concrete inputs.
mod Data
mod Rounds
mod Proposals
mod Appeals
mod Order
mod Committees
mod Node
mod Openings
mod Overturned
mod Closings
mod Attachments
pub mod System
mod Auth
mod Queue
mod Bodies
mod Spelling
