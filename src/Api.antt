-- ===== src/Api.antt =====
-- The HTTP server (internal/api).
pub mod Cors
