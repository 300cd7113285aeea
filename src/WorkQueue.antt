-- ===== src/WorkQueue.antt =====
-- src/util/workQueue.ts: a bounded queue of jobs with a concurrency limit.
pub mod Machine
pub mod Bounds
pub mod Order
pub mod Examples
