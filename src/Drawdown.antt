-- ===== src/Drawdown.antt =====
-- src/risk: the drawdown kill switch and the file that it survives a restart in.
pub mod Guard
pub mod Store
pub mod Verdicts
pub mod Halts
pub mod Examples
