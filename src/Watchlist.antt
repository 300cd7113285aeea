-- ===== src/Watchlist.antt =====
-- src/watchlist: which detected tokens are looked at again, and when.
pub mod Policy
pub mod Stages
pub mod Priority
pub mod Runtime
pub mod Bounded
pub mod Rounds
pub mod Examples
