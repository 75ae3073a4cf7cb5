-- ===== src/Drivers.antt =====
-- The drivers of orchestrator/internal/runtime that are modelled.
pub mod Mock
pub mod Mux
pub mod Contract
pub mod Machine
pub mod Firecracker
pub mod After
pub mod Booted
pub mod Started
pub mod Suspended
pub mod Admission
pub mod Thin
pub mod Allocated
