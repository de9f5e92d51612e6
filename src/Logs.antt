-- ===== src/Logs.antt =====
-- The collection of the workloads' logs (internal/logs).
pub mod Fifo
pub mod Transport
pub mod Targets
pub mod Writing
mod Examples
