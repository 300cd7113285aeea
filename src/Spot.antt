-- ===== src/Spot.antt =====
-- src/trading: the bot that buys and sells spot tokens.
pub mod Records
pub mod Rules
pub mod Retry
pub mod Sizing
pub mod Engine
pub mod Buying
pub mod Steps
pub mod Alone
pub mod Keeping
pub mod Cycles
pub mod Resuming
pub mod Runs
pub mod Overrun
pub mod Losing
pub mod Averages
pub mod Examples
