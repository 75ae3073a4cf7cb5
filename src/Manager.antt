-- ===== src/Manager.antt =====
-- The control plane's manager: orchestrator/internal/manager.
pub mod State
pub mod Lifecycle
pub mod Reaper
pub mod Frames
pub mod Wake
pub mod Reap
pub mod Sleep
pub mod Eviction
pub mod Lru
pub mod Routes
pub mod Adopt
pub mod Victims
pub mod Activity
pub mod Regions
pub mod Placement
pub mod DefaultRegion
pub mod OneDefault
pub mod Vault
pub mod Dumps
pub mod Schedule
pub mod Coverage
pub mod Dumped
pub mod Due
pub mod Sweep
pub mod Interpolate
pub mod References
pub mod Create
pub mod Register
pub mod Registered
pub mod Evict
pub mod Evicted
pub mod Images
pub mod Collected
pub mod Reset
pub mod Restored
pub mod Keys
pub mod Minted
