-- ===== src/Target/Pypsa.antt =====
-- The PyPSA target (internal/target/pypsa): what it rejects, and what its emitter writes.
pub mod Costs
pub mod Planning
pub mod Scenarios
pub mod Buses
pub mod Islands
pub mod Network
pub mod Flow
pub mod Checks
