-- ===== src/Sidecar.antt =====
-- crates/pgvisor-sidecar/src: the process beside PostgreSQL on each node.
pub mod Election
pub mod BackupLock
pub mod Events
pub mod Supervisor
pub mod Control
pub mod Authorisation
