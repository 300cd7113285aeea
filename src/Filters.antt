-- ===== src/Filters.antt =====
-- src/filters/engine.ts: the rules that a token passes before anything may be bought.
pub mod Engine
pub mod Passing
pub mod Examples
