-- ===== src/Workload.antt =====
-- The workloads (internal/workload).
pub mod Mapping
pub mod Netfilter
pub mod Wrapper
pub mod Secrets
pub mod Podman
pub mod Pods
pub mod Manager
pub mod Reconcile
mod Examples
pub mod ManagerExamples
