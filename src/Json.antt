-- ===== src/Json.antt =====
-- JSON text that the host writes and reads outside the strict scanner (src/studio_host.cpp).
pub mod Escape
