-- ===== src/Auth.antt =====
-- The server's sessions and refresh tokens, backend/domains/auth.
pub mod Sessions
pub mod Tokens
pub mod Login
pub mod Lockout
pub mod Interleaving
pub mod Survival
pub mod Reuse
pub mod Ending
pub mod Expiry
pub mod Revocation
mod Tests
