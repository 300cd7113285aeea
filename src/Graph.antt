-- ===== src/Graph.antt =====
-- src/graph/graph.ts: the graph runtime that the bot's pipelines are declared in.
pub mod Topology
pub mod Running
pub mod RunningSync
pub mod Faults
pub mod Runs
pub mod Agreement
pub mod Routes
pub mod Search
pub mod Unreachable
pub mod Listing
pub mod Examples
