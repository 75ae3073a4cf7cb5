-- ===== src/Config.antt =====
-- The configuration of the orchestrator (orchestrator/internal/config).
pub mod Env
pub mod Load
pub mod Written
