-- ===== src/Web.antt =====
-- internal/web: the web server.
pub mod Text
pub mod Stream
pub mod Files
pub mod Sessions
pub mod Deletion
pub mod Cache
pub mod Idle
pub mod Hotspot
pub mod Settings
pub mod Events
