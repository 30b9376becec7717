-- ===== src/ApiKeys/Database.antt =====
-- What the operations of backend/domains/api_keys/service.py read, draw, return and leave.
use sentora.Prelude.{
  Bool, List, Option, String, [], any, if◌then◌else◌, none, not, some, str_eq, ℕ, ◌++◌, ◌∷◌,
}
use sentora.ApiKeys.Entities.{ApiKey, available_scopes}
use sentora.ApiKeys.Repository.{find_by_id}
use sentora.Scope.{member}
use Prim.Native.String.{slice, ◌++◌ as ◌⧺◌}

-- A call of `audit`: the action, the actor, and the key's id of its details.
pub record AuditCall : Type 0 where
  pub action : String
  pub actor : String
  pub api_key_id : String

pub record KeyDb : Type 0 where
  pub api_keys : List ApiKey
  pub audited : List AuditCall

pub data Failure : Type 0 where
  not_found key_error scope_error : Failure

pub data Answer (A : Type 0) : Type 0 where
  raised : Failure → Answer A
  returned : A → Answer A

-- `APIKeyResponse`, which has neither the hash nor the grace period.
pub record KeyResponse : Type 0 where
  pub id : String
  pub tenant_id : String
  pub name : String
  pub description : Option String
  pub key_prefix : String
  pub scopes : List String
  pub rate_limit_per_minute : ℕ
  pub rate_limit_per_hour : ℕ
  pub created_at : ℕ
  pub created_by : String
  pub expires_at : Option ℕ
  pub last_used_at : Option ℕ
  pub last_used_ip : Option String
  pub is_active : Bool
  pub revoked_at : Option ℕ
  pub revoked_by : Option String

abbrev pub entity_to_response : ApiKey → KeyResponse
entity_to_response e = record {
  id = e.id;
  tenant_id = e.tenant_id;
  name = e.name;
  description = e.description;
  key_prefix = e.key_prefix;
  scopes = e.scopes;
  rate_limit_per_minute = e.rate_limit_per_minute;
  rate_limit_per_hour = e.rate_limit_per_hour;
  created_at = e.created_at;
  created_by = e.created_by;
  expires_at = e.expires_at;
  last_used_at = e.last_used_at;
  last_used_ip = e.last_used_ip;
  is_active = e.is_active;
  revoked_at = e.revoked_at;
  revoked_by = e.revoked_by;
}

pub record CurrentResponse : Type 0 where
  pub id : String
  pub name : String
  pub key_prefix : String
  pub scopes : List String
  pub rate_limit_per_minute : ℕ
  pub rate_limit_per_hour : ℕ
  pub last_used_at : Option ℕ

pub record CreateRequest : Type 0 where
  pub name : String
  pub description : Option String
  pub scopes : List String
  pub rate_limit_per_minute : ℕ
  pub rate_limit_per_hour : ℕ
  pub expires_at : Option ℕ

pub record UpdateRequest : Type 0 where
  pub name : Option String
  pub description : Option String
  pub scopes : Option (List String)
  pub rate_limit_per_minute : Option ℕ
  pub rate_limit_per_hour : Option ℕ
  pub expires_at : Option ℕ

-- What an operation draws: the clock, the ObjectId and the random part of a new key.
pub record Draw : Type 0 where
  pub now : ℕ
  pub object_id : String
  pub random_part : String

-- `generate_api_key`, for the hash of hashlib: the key, its prefix and its hash.
abbrev pub full_key_of : String → String
full_key_of random_part = "sentora_sk_live_" ⧺ random_part

abbrev pub generate_api_key : (String → String) → String → String × String × String
generate_api_key sha256 random_part =
    let full_key = full_key_of random_part in (full_key, slice full_key 0 20, sha256 full_key)

-- `_validate_scopes`: whether it raises.
abbrev pub invalid_scopes : List String → Bool
invalid_scopes scopes = any (λ s. not (member s available_scopes)) scopes

abbrev pub rotation_grace_minutes : ℕ
rotation_grace_minutes = 5

abbrev pub audit : String → String → String → KeyDb → KeyDb
audit action actor key_id db = record db {
  audited = db.audited ++ (record { action = action; actor = actor; api_key_id = key_id } ∷ []);
}

abbrev pub save : (List ApiKey → List ApiKey) → KeyDb → KeyDb
save f db = record db { api_keys = f db.api_keys }

-- The key that an operation names, when it is one of the tenant's.
abbrev pub owned : String → String → KeyDb → Option ApiKey
owned key_id tenant_id db = elim (find_by_id key_id db.api_keys) [
  | none ↦ none
  | some e ↦ if str_eq e.tenant_id tenant_id then some e else none
]
