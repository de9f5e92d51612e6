-- ===== src/Metrics/RemoteWrite.antt =====
-- internal/metrics/remote_write.go
pub mod Range
pub mod Request
pub mod Settings
pub mod Writer
mod Examples
