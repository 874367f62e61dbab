-- ===== src/Storage.antt =====
-- internal/storage: what is kept on the SD card.
pub mod Writer
pub mod Sessions
pub mod Cleanup
pub mod Atomic
