-- ===== src/Sync.antt =====
-- internal/sync: the ten steps of a sync.
pub mod Status
pub mod World
pub mod FlashRead
pub mod Preparation
pub mod Orchestrator
pub mod EraseSafety
