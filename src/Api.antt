-- ===== src/Api.antt =====
-- The control API (orchestrator/internal/api).
pub mod RateLimit
pub mod Refill
pub mod Auth
pub mod Authorized
pub mod Projects
pub mod Named
