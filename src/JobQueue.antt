-- ===== src/JobQueue.antt =====
-- job-queue.service.ts: the queue of deferred jobs.
pub mod Service
pub mod Ordering
pub mod Bounds
