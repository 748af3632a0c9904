-- ===== src/Target.antt =====
-- The target registry (internal/target).
pub mod Registry
pub mod Gates
pub mod Pipeline
pub mod Pypsa
