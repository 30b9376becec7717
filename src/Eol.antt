-- ===== src/Eol.antt =====
-- The end-of-life matching: backend/domains/eol.
pub mod Entities
pub mod Tables
pub mod Cycles
pub mod Names
pub mod Matching
pub mod Longest
pub mod Lifecycle
pub mod Best
pub mod Layers
pub mod Runs
mod Tests
