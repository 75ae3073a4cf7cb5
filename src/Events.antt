-- ===== src/Events.antt =====
-- The activity feed: orchestrator/internal/events/events.go.
pub mod Sink
