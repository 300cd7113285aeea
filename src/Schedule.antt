-- ===== src/Schedule.antt =====
-- src/schedule/scheduler.ts: the active-window scheduler.
pub mod Parsing
pub mod Windows
pub mod Weekly
pub mod Parsed
pub mod Opening
pub mod Search
pub mod Examples
