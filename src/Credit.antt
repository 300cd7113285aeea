-- ===== src/Credit.antt =====
-- src/rpc/creditBudget.ts: the credit circuit breaker.
pub mod Ledger
pub mod Decision
pub mod Pricing
pub mod Breaker
pub mod Balance
pub mod Limits
pub mod History
pub mod Halts
pub mod Metering
pub mod Restart
pub mod Examples
