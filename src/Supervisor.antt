-- ===== src/Supervisor.antt =====
-- src/supervisor/supervisor.ts: when the supervisor restarts the bot.
pub mod Settings
pub mod Deciding
pub mod Restarts
pub mod Accepted
pub mod Examples
