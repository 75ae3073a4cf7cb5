-- ===== src/Metering.antt =====
-- Traffic metering: orchestrator/internal/metering.
pub mod Counters
pub mod Meter
pub mod Conserve
pub mod Drain
pub mod Writer
pub mod Reporter
pub mod Account
