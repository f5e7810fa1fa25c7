-- ===== src/Proxy.antt =====
-- crates/pgvisor-proxy/src: the connection pool, the client sessions over it, and the operations
-- on the cluster.
pub mod Pool
pub mod Session
pub mod Cluster
pub mod Executor
pub mod Backups
