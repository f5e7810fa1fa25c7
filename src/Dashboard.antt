-- ===== src/Dashboard.antt =====
-- crates/pgvisor-dashboard/src: the checks before SQL and requests of the dashboard are let through.
pub mod Guard
