-- ===== src/Examples.antt =====
-- Concrete inputs at which the theorems apply, and runs of the model.
mod Store
mod Metering
mod Manager
mod Gateway
mod Backup
mod Events
mod Regions
mod Backups
mod Api
mod Interpolate
mod Drivers
mod Create
mod Images
mod Restore
pub mod Firecracker
pub mod Access
pub mod Config
