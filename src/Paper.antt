-- ===== src/Paper.antt =====
-- src/trading/paperExecution.ts: the book of paper positions.
pub mod Records
pub mod Venues
pub mod Book
pub mod Observing
pub mod Expiring
pub mod Restoring
pub mod Summary
pub mod Keeping
pub mod Session
pub mod InStep
pub mod Restarts
pub mod Live
pub mod Sessions
pub mod Cap
pub mod Summing
pub mod Sweeping
pub mod Halted
pub mod Sound
pub mod Examples
pub mod Calls
