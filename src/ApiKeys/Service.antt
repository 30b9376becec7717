-- ===== src/ApiKeys/Service.antt =====
-- The service of backend/domains/api_keys/service.py. An operation gives its result, or the error it
-- raises, and the database it leaves.
use sentora.Prelude.{
  Bool, List, Option, String, [], false, if◌then◌else◌, map, none, not, some, true, ℕ, ◌*◌, ◌+◌,
  ◌||◌,
}
use sentora.ApiKeys.Database.{
  CurrentResponse, CreateRequest, Draw, KeyDb, KeyResponse, Answer, UpdateRequest, audit,
  entity_to_response, full_key_of, generate_api_key, invalid_scopes, key_error, not_found, owned,
  raised, returned, rotation_grace_minutes, save, scope_error,
}
use sentora.ApiKeys.Entities.{ApiKey}
use sentora.ApiKeys.Repository.{create, find_by_id, list_by_tenant, update}

-- The update of `rotate_api_key`: a revocation with a grace period.
abbrev pub retire : Draw → String → ApiKey → ApiKey
retire d rotated_by k = record k {
  is_active = false;
  revoked_at = some d.now;
  revoked_by = some rotated_by;
  grace_expires_at = some (d.now + rotation_grace_minutes * 60);
}

module _ (sha256 : String → String) where
  unfoldable pub create_api_key :
      Draw → CreateRequest → String → String → KeyDb → Answer (KeyResponse × String) × KeyDb
  create_api_key d req tenant_id created_by db =
      let (full_key, key_prefix, key_hash) = generate_api_key sha256 d.random_part in
      let entity : ApiKey = record {
        id = d.object_id;
        tenant_id = tenant_id;
        name = req.name;
        key_prefix = key_prefix;
        key_hash = key_hash;
        scopes = req.scopes;
        created_at = d.now;
        created_by = created_by;
        description = req.description;
        rate_limit_per_minute = req.rate_limit_per_minute;
        rate_limit_per_hour = req.rate_limit_per_hour;
        expires_at = req.expires_at;
        last_used_at = none;
        last_used_ip = none;
        is_active = true;
        revoked_at = none;
        revoked_by = none;
        grace_expires_at = none;
        rotated_from_id = none;
      } in
      if invalid_scopes req.scopes then (raised scope_error, db) else (
        returned (entity_to_response entity, full_key),
        audit "api_key.created" created_by d.object_id (save (create entity) db),
      )

  -- `rotate_api_key`: the key that it creates from an old one.
  abbrev pub rotated_entity : Draw → String → ApiKey → ApiKey
  rotated_entity d rotated_by entity =
      let (full_key, key_prefix, key_hash) = generate_api_key sha256 d.random_part in
      record {
        id = d.object_id;
        tenant_id = entity.tenant_id;
        name = entity.name;
        key_prefix = key_prefix;
        key_hash = key_hash;
        scopes = entity.scopes;
        created_at = d.now;
        created_by = rotated_by;
        description = entity.description;
        rate_limit_per_minute = entity.rate_limit_per_minute;
        rate_limit_per_hour = entity.rate_limit_per_hour;
        expires_at = entity.expires_at;
        last_used_at = none;
        last_used_ip = none;
        is_active = true;
        revoked_at = none;
        revoked_by = none;
        grace_expires_at = none;
        rotated_from_id = some entity.id;
      }

  unfoldable pub rotate_api_key :
      Draw → String → String → String → KeyDb → Answer (KeyResponse × String) × KeyDb
  rotate_api_key d key_id tenant_id rotated_by db = elim (owned key_id tenant_id db) [
    | none ↦ (raised not_found, db)
    | some entity ↦
        let new_entity = rotated_entity d rotated_by entity in
        if not entity.is_active then (raised key_error, db) else (
          returned (entity_to_response new_entity, full_key_of d.random_part),
          audit "api_key.rotated" rotated_by key_id
              (save (create new_entity) (save (update key_id (retire d rotated_by)) db)),
        )
  ]

unfoldable pub list_api_keys : (List ApiKey → List ApiKey) → String → KeyDb → List KeyResponse
list_api_keys newest_first tenant_id db =
    map entity_to_response (list_by_tenant newest_first tenant_id db.api_keys)

unfoldable pub get_api_key : String → String → KeyDb → Answer KeyResponse
get_api_key key_id tenant_id db = elim (owned key_id tenant_id db) [
  | none ↦ raised not_found
  | some e ↦ returned (entity_to_response e)
]

-- The fields that a request sets; the others stay.
abbrev pub or_else {ℓ} : {A : Type ℓ} → Option A → A → A
or_else none d = d
or_else (some a) d = a

abbrev or_old {ℓ} : {A : Type ℓ} → Option A → Option A → Option A
or_old none d = d
or_old (some a) d = some a

abbrev is_some {ℓ} : {A : Type ℓ} → Option A → Bool
is_some none = false
is_some (some a) = true

abbrev pub apply_updates : UpdateRequest → ApiKey → ApiKey
apply_updates req k = record k {
  name = or_else req.name k.name;
  description = or_old req.description k.description;
  scopes = or_else req.scopes k.scopes;
  rate_limit_per_minute = or_else req.rate_limit_per_minute k.rate_limit_per_minute;
  rate_limit_per_hour = or_else req.rate_limit_per_hour k.rate_limit_per_hour;
  expires_at = or_old req.expires_at k.expires_at;
}

-- `if updates:`
abbrev pub has_updates : UpdateRequest → Bool
has_updates req =
    is_some req.name
    || is_some req.description
    || is_some req.scopes
    || is_some req.rate_limit_per_minute
    || is_some req.rate_limit_per_hour
    || is_some req.expires_at

abbrev pub reread : String → KeyDb → Answer KeyResponse
reread key_id db = elim (find_by_id key_id db.api_keys) [
  | none ↦ raised not_found
  | some updated ↦ returned (entity_to_response updated)
]

unfoldable pub update_api_key :
    String → UpdateRequest → String → String → KeyDb → Answer KeyResponse × KeyDb
update_api_key key_id req tenant_id updated_by db = elim (owned key_id tenant_id db) [
  | none ↦ (raised not_found, db)
  | some entity ↦
      let db' =
        if has_updates req
        then audit "api_key.updated" updated_by key_id (save (update key_id (apply_updates req)) db)
        else db in
      if not entity.is_active
      then (raised key_error, db)
      else if invalid_scopes (or_else req.scopes [])
      then (raised scope_error, db)
      else (reread key_id db', db')
]

abbrev pub revoke : ℕ → String → ApiKey → ApiKey
revoke now revoked_by k = record k {
  is_active = false;
  revoked_at = some now;
  revoked_by = some revoked_by;
}

unfoldable pub revoke_api_key : ℕ → String → String → String → KeyDb → Answer Unit × KeyDb
revoke_api_key now key_id tenant_id revoked_by db = elim (owned key_id tenant_id db) [
  | none ↦ (raised not_found, db)
  | some entity ↦ (
    returned tt,
    audit "api_key.revoked" revoked_by key_id (save (update key_id (revoke now revoked_by)) db),
  )
]

-- `get_current_key_info`, which is not restricted to a tenant: the fields of its response.
unfoldable pub get_current_key_info : String → KeyDb → Answer CurrentResponse
get_current_key_info key_id db = elim (find_by_id key_id db.api_keys) [
  | none ↦ raised not_found
  | some e ↦ returned (record {
    id = e.id;
    name = e.name;
    key_prefix = e.key_prefix;
    scopes = e.scopes;
    rate_limit_per_minute = e.rate_limit_per_minute;
    rate_limit_per_hour = e.rate_limit_per_hour;
    last_used_at = e.last_used_at;
  })
]
