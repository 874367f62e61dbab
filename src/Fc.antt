-- ===== src/Fc.antt =====
-- internal/fc: which flight controllers are read, and the handshake that identifies one.
pub mod Versions
pub mod Detector
