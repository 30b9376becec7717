-- ===== src/ApiKeys.antt =====
-- The API keys of backend/domains/api_keys.
pub mod Entities
pub mod Scopes
pub mod Documents
pub mod Repository
pub mod Database
pub mod Service
pub mod Limiters
pub mod Middleware
pub mod Access
pub mod Rotation
pub mod Isolation
mod Tests
