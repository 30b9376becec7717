-- ===== src/Enforcement.antt =====
-- Enforcement rules over the agent fleet: backend/domains/enforcement.
pub mod Entities
pub mod Violations
pub mod Engine
pub mod Verdicts
pub mod Counts
pub mod Runs
pub mod Trigger
mod Tests
