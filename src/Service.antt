-- ===== src/Service.antt =====
-- internal/service: running jobs, their states, logs and results.
pub mod Capture
pub mod Jobs
pub mod Orchestrator
pub mod Simulate
pub mod Executor
