-- ===== src/Storage.antt =====
-- crates/pgvisor-core/src/storage: the write-ahead log, the state machine and openraft's stores.
pub mod Bytes
pub mod Codec
pub mod Wal
pub mod StateMachine
pub mod Fixtures
pub mod Engine
