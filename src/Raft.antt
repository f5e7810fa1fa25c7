-- ===== src/Raft.antt =====
-- crates/pgvisor-core/src/raft: the replicated commands and the failover orchestrator.
pub mod Types
pub mod Orchestrator
