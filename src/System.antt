-- ===== src/System.antt =====
-- The node as a whole: the requests of its API that change the database, one after the other.
pub mod Requests
pub mod Quiet
pub mod Changes
pub mod Served
pub mod Votes
pub mod Evolution
pub mod Runs
pub mod Board
pub mod Refinement
