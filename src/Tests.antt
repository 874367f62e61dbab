-- ===== src/Tests.antt =====
-- Runs of the model at concrete inputs.
pub mod Framing
pub mod Huffman
pub mod Client
pub mod Fc
pub mod Storage
pub mod Sync
pub mod Sessions
pub mod Files
pub mod Web
pub mod Led
pub mod Hotspot
pub mod Config
