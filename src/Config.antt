-- ===== src/Config.antt =====
-- The configuration of the server (internal/env and internal/cli).
pub mod Env
pub mod Cli
