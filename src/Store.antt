-- ===== src/Store.antt =====
-- The control plane's store: orchestrator/internal/store.
pub mod Records
pub mod Mem
pub mod Query
pub mod Ops
pub mod Keyed
pub mod Reopen
pub mod Cascade
pub mod Linked
pub mod ByKey
