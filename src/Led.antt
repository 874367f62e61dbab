-- ===== src/Led.antt =====
-- internal/led: the status LED.
pub mod Controller
