-- ===== src/ApiKeys/Documents.antt =====
-- The converters of backend/domains/api_keys/repository.py between documents and keys.
use sentora.Prelude.{Option, refl, some, true, [], ◌≡◌, ◌∷◌}
use sentora.Documents.{
  ◌>>=◌, Document, field, flag, flag_or, get_number, get_number-number?, get_text, get_text-text?,
  number, number?, number_or, read_number, read_text, text, text?, texts, texts_or,
}
use sentora.ApiKeys.Entities.{ApiKey}

-- `_doc_to_entity`
unfoldable pub doc_to_entity : Document → Option ApiKey
doc_to_entity doc = do
  id ← read_text (field "_id" doc)
  tenant_id ← read_text (field "tenant_id" doc)
  name ← read_text (field "name" doc)
  description ← get_text (field "description" doc)
  key_prefix ← read_text (field "key_prefix" doc)
  key_hash ← read_text (field "key_hash" doc)
  scopes ← texts_or [] (field "scopes" doc)
  rate_limit_per_minute ← number_or 60 (field "rate_limit_per_minute" doc)
  rate_limit_per_hour ← number_or 1000 (field "rate_limit_per_hour" doc)
  created_at ← read_number (field "created_at" doc)
  created_by ← read_text (field "created_by" doc)
  expires_at ← get_number (field "expires_at" doc)
  last_used_at ← get_number (field "last_used_at" doc)
  last_used_ip ← get_text (field "last_used_ip" doc)
  is_active ← flag_or true (field "is_active" doc)
  revoked_at ← get_number (field "revoked_at" doc)
  revoked_by ← get_text (field "revoked_by" doc)
  grace_expires_at ← get_number (field "grace_expires_at" doc)
  rotated_from_id ← get_text (field "rotated_from_id" doc)
  some (record {
    id = id;
    tenant_id = tenant_id;
    name = name;
    key_prefix = key_prefix;
    key_hash = key_hash;
    scopes = scopes;
    created_at = created_at;
    created_by = created_by;
    description = description;
    rate_limit_per_minute = rate_limit_per_minute;
    rate_limit_per_hour = rate_limit_per_hour;
    expires_at = expires_at;
    last_used_at = last_used_at;
    last_used_ip = last_used_ip;
    is_active = is_active;
    revoked_at = revoked_at;
    revoked_by = revoked_by;
    grace_expires_at = grace_expires_at;
    rotated_from_id = rotated_from_id;
  })

-- `_entity_to_doc`
unfoldable pub entity_to_doc : ApiKey → Document
entity_to_doc e =
    ("_id", text e.id)
    ∷ ("tenant_id", text e.tenant_id)
    ∷ ("name", text e.name)
    ∷ ("description", text? e.description)
    ∷ ("key_prefix", text e.key_prefix)
    ∷ ("key_hash", text e.key_hash)
    ∷ ("scopes", texts e.scopes)
    ∷ ("rate_limit_per_minute", number e.rate_limit_per_minute)
    ∷ ("rate_limit_per_hour", number e.rate_limit_per_hour)
    ∷ ("created_at", number e.created_at)
    ∷ ("created_by", text e.created_by)
    ∷ ("expires_at", number? e.expires_at)
    ∷ ("last_used_at", number? e.last_used_at)
    ∷ ("last_used_ip", text? e.last_used_ip)
    ∷ ("is_active", flag e.is_active)
    ∷ ("revoked_at", number? e.revoked_at)
    ∷ ("revoked_by", text? e.revoked_by)
    ∷ ("grace_expires_at", number? e.grace_expires_at)
    ∷ ("rotated_from_id", text? e.rotated_from_id)
    ∷ []

-- Every key is read back, field by field, from the document that is written for it.
pub doc_to_entity-entity_to_doc : (e : ApiKey) → doc_to_entity (entity_to_doc e) ≡ some e
unfolding doc_to_entity entity_to_doc
doc_to_entity-entity_to_doc e =
    rw
      (
        get_text-text? e.description,
        get_number-number? e.expires_at,
        get_number-number? e.last_used_at,
        get_text-text? e.last_used_ip,
        get_number-number? e.revoked_at,
        get_text-text? e.revoked_by,
        get_number-number? e.grace_expires_at,
        get_text-text? e.rotated_from_id,
      )
      refl
