-- ===== src/Tests.antt =====
-- Tests: each theorem with hypotheses, applied at an input that meets them.
mod Fixtures
mod Plant
mod Sweeps
mod Capture
mod Orchestration
mod Execution
mod Registry
mod Parameters
mod Emission
mod Models
mod Gates
mod Interning
mod Checking
mod Planning
mod Buses
mod Natives
mod Settings
mod Origins
mod Islands
mod Flows
mod Voltages
