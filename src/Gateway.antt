-- ===== src/Gateway.antt =====
-- How the gateway finds the workload of a request: orchestrator/internal/gateway/gateway.go.
pub mod Routing
pub mod Subroute
pub mod Routed
pub mod Alias
