-- ===== src/Backup.antt =====
-- Where backups are kept: orchestrator/internal/backup.
pub mod Names
pub mod Local
pub mod Listed
pub mod Stored
pub mod Alike
pub mod Put
pub mod Answer
pub mod Multi
pub mod Merged
pub mod Fanout
