-- ===== src/ApiKeys/Entities.antt =====
-- The API keys and their scopes, backend/domains/api_keys/entities.py. A time is a number of
-- seconds, and a set of scopes is a list of which only the membership is read.
use sentora.Prelude.{
  Bool, List, Option, String, [], if◌then◌else◌, keep, not, str_eq, ℕ, ◌&&◌, ◌++◌, ◌-◌, ◌∷◌,
}
use sentora.Scope.{member}
use Prim.Native.String.{len, slice}

pub record ApiKey : Type 0 where
  pub id : String
  pub tenant_id : String
  pub name : String
  pub key_prefix : String
  pub key_hash : String
  pub scopes : List String
  pub created_at : ℕ
  pub created_by : String
  pub description : Option String
  pub rate_limit_per_minute : ℕ
  pub rate_limit_per_hour : ℕ
  pub expires_at : Option ℕ
  pub last_used_at : Option ℕ
  pub last_used_ip : Option String
  pub is_active : Bool
  pub revoked_at : Option ℕ
  pub revoked_by : Option String
  pub grace_expires_at : Option ℕ
  pub rotated_from_id : Option String

-- The keys of `AVAILABLE_SCOPES`.
abbrev pub available_scopes : List String
available_scopes =
    "agents:read" ∷ "apps:read" ∷ "compliance:read" ∷ "enforcement:read" ∷ "audit:read"
    ∷ "sync:read" ∷ "taxonomy:read" ∷ "fingerprints:read" ∷ "dashboard:read" ∷ "sync:trigger"
    ∷ "enforcement:write" ∷ "tags:write" ∷ "read:all" ∷ "write:all" ∷ []

abbrev pub ends_with : String → String → Bool
ends_with s t = str_eq (slice s (len s - len t) (len s)) t

abbrev pub read_scopes : List String
read_scopes = keep (λ s. ends_with s ":read") available_scopes

abbrev pub write_scopes : List String
write_scopes =
    keep (λ s. not (member s read_scopes) && not (member s ("read:all" ∷ "write:all" ∷ [])))
      available_scopes

-- One turn of the loop of `expand_scopes`.
abbrev pub expand_scope : String → List String
expand_scope scope =
    if str_eq scope "write:all"
    then read_scopes ++ write_scopes
    else if str_eq scope "read:all"
    then read_scopes
    else scope ∷ []

unfoldable pub expand_scopes : List String → List String
expand_scopes [] = []
expand_scopes (scope ∷ scopes) = expand_scope scope ++ expand_scopes scopes
