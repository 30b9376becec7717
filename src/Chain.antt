-- ===== src/Chain.antt =====
-- The audit hash-chain: backend/audit/chain and tools/sentora_verify.
pub mod Entities
pub mod Runtime
pub mod Hasher
pub mod Repository
pub mod Commands
pub mod Verify
pub mod Reports
pub mod Export
pub mod Linked
pub mod Dense
pub mod Append
pub mod Gapless
pub mod Stuck
pub mod Scan
pub mod Accepts
pub mod Ranges
pub mod Sound
pub mod Tamper
pub mod Offline
pub mod Exported
pub mod Genesis
pub mod Samples
pub mod Tests
