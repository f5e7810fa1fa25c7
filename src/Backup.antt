-- ===== src/Backup.antt =====
-- crates/pgvisor-core/src/backup: base backups and archived WAL in an object store.
pub mod Store
pub mod Fixtures
pub mod Config
pub mod Archive
pub mod Manager
