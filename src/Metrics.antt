-- ===== src/Metrics.antt =====
-- The metrics component (internal/metrics).
pub mod Series
pub mod RemoteWrite
pub mod Allowed
pub mod Database
pub mod Daemon
pub mod Workloads
pub mod System
pub mod Scraper
