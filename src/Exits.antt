-- ===== src/Exits.antt =====
-- src/trading: the exit rules of a position, as pure decisions over observed pools.
pub mod Decisions
pub mod Trailing
pub mod Series
pub mod Raised
pub mod Persistence
pub mod Verdicts
pub mod Outcomes
pub mod Examples
