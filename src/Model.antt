-- ===== src/Model.antt =====
-- internal/model: the canonical energy-system model and its experiment.
pub mod Types
pub mod Run
pub mod Periods
pub mod Ids
pub mod Enums
pub mod Dates
pub mod Checks
pub mod Intern
pub mod Electrical
pub mod Validate
pub mod Uses
pub mod Values
pub mod Overrides
