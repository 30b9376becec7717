-- ===== src/Compliance.antt =====
-- The compliance engine: backend/domains/compliance.
pub mod Entities
pub mod Engine
pub mod Sharing
pub mod Checks
pub mod Frameworks
pub mod Resolution
pub mod Running
mod Tests
