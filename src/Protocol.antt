-- ===== src/Protocol.antt =====
-- crates/pgvisor-core/src/protocol: what the proxy reads from the PostgreSQL protocol.
pub mod Message
pub mod Tracker
