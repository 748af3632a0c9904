-- ===== src/Emit.antt =====
-- The helpers that the emitters share (internal/emit).
pub mod Resolution
pub mod Series
pub mod Labels
pub mod Capex
pub mod Native
