-- ===== src/Chain/Entities.antt =====
-- backend/audit/chain/entities.py, and the documents of the audit_log and audit_chain_meta
-- collections that the chain reads and writes. A datetime is a number of microseconds; the
-- `details` dict is its JSON text.
use sentora.Prelude.{ℕ, String, Bool, Option, List}

pub data ChainStatus : Type 0 where
  valid broken gap_detected : ChainStatus

pub data BrokenReason : Type 0 where
  hash_mismatch sequence_gap missing_entry : BrokenReason

-- A timestamp is a datetime in the database, and text in an exported file.
pub data Timestamp : Type 0 where
  instant : ℕ → Timestamp
  iso_text : String → Timestamp

pub record ChainedAuditEntry : Type 0 where
  pub sequence : ℕ
  pub epoch : ℕ
  pub timestamp : Timestamp
  pub domain : String
  pub action : String
  pub actor : String
  pub status : String
  pub summary : String
  pub details : String
  pub tenant_id : Option String
  pub previous_hash : Option String
  pub hash : String
  pub is_epoch_start : Bool
  pub is_epoch_end : Bool
  pub previous_epoch_hash : Option String

pub record VerificationResult : Type 0 where
  pub status : ChainStatus
  pub verified_entries : ℕ
  pub first_sequence : ℕ
  pub last_sequence : ℕ
  pub epochs_verified : ℕ
  pub broken_at_sequence : Option ℕ
  pub broken_reason : Option BrokenReason
  pub verification_time_ms : ℕ

pub record ChainStatusInfo : Type 0 where
  pub total_entries : ℕ
  pub current_epoch : ℕ
  pub current_sequence : ℕ
  pub genesis_hash : String
  pub latest_hash : String
  pub chain_valid : Option Bool
  pub last_verified_at : Option ℕ

pub record EpochSummary : Type 0 where
  pub epoch : ℕ
  pub first_sequence : ℕ
  pub last_sequence : ℕ
  pub entry_count : ℕ
  pub first_timestamp : Timestamp
  pub last_timestamp : Timestamp
  pub epoch_final_hash : String
  pub previous_epoch_hash : Option String
  pub exported : Bool

-- The fields of an entry that its hash covers.
pub record Hashable : Type 0 where
  pub sequence : ℕ
  pub epoch : ℕ
  pub timestamp : String
  pub domain : String
  pub action : String
  pub actor : String
  pub status : String
  pub summary : String
  pub details : String
  pub tenant_id : Option String
  pub previous_hash : String

-- The document `last_verification` of audit_chain_meta.
pub record Verification : Type 0 where
  pub status : ChainStatus
  pub verified_entries : ℕ
  pub chain_valid : Bool
  pub verified_at : ℕ
  pub broken_at_sequence : Option ℕ
  pub broken_reason : Option BrokenReason
  pub verification_time_ms : ℕ

-- The two collections of a tenant. `log` holds the documents that have a sequence; no query of the
-- chain selects the others.
pub record ChainDb : Type 0 where
  pub log : List ChainedAuditEntry
  pub sequence_counter : Option ℕ
  pub chain_config : Option ℕ
  pub last_verification : Option Verification
  pub exported_epochs : List ℕ

pub data ChainError : Type 0 where
  chain_not_initialized : ChainError
  epoch_not_found : ℕ → ChainError
  epoch_not_complete : ℕ → ℕ → ChainError
  lock_unavailable : ChainError
  write_failed : ℕ → ChainError

pub data Result {ℓ} (A : Type ℓ) : Type ℓ where
  ok : A → Result A
  err : ChainError → Result A
