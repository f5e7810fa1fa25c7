-- ===== src/Storage/Engine.antt =====
-- crates/pgvisor-core/src/storage/engine.rs: openraft's log store and state machine store.
pub mod LogStore
pub mod StateStore
pub mod Purging
pub mod Snapshots
mod Examples
