-- ===== src/Ansible.antt =====
-- Ansible playbooks (internal/ansible).
pub mod Mapping
pub mod Records
pub mod Kinds
pub mod Events
pub mod Messages
pub mod Manager
pub mod Handover
