-- ===== src/ApiKeys/Repository.antt =====
-- The calls on the collection of keys (backend/domains/api_keys/repository.py). A document is stood
-- for by the key that `_doc_to_entity` reads from it.
use sentora.Prelude.{
  Bool, List, Option, String, [], false, keep, ltb, none, some, str_eq, ℕ, ◌&&◌, ◌++◌, ◌||◌, ◌∷◌,
}
use sentora.ApiKeys.Entities.{ApiKey}
use sentora.Collections.{delete_one, find_one, update_one}

unfoldable pub find_by_hash : String → List ApiKey → Option ApiKey
find_by_hash key_hash keys = find_one (λ k. str_eq k.key_hash key_hash) keys

-- `{"grace_expires_at": {"$gt": now}}`, which a missing date does not satisfy.
abbrev pub after : Option ℕ → ℕ → Bool
after none now = false
after (some t) now = ltb now t

unfoldable pub find_by_hash_including_grace : ℕ → String → List ApiKey → Option ApiKey
find_by_hash_including_grace now key_hash keys =
    find_one (λ k. str_eq k.key_hash key_hash && (k.is_active || after k.grace_expires_at now)) keys

abbrev pub has_id : String → ApiKey → Bool
has_id key_id k = str_eq k.id key_id

unfoldable pub find_by_id : String → List ApiKey → Option ApiKey
find_by_id key_id keys = find_one (has_id key_id) keys

-- The documents of a tenant, which the cursor then sorts.
unfoldable pub list_by_tenant : (List ApiKey → List ApiKey) → String → List ApiKey → List ApiKey
list_by_tenant newest_first tenant_id keys =
    newest_first (keep (λ k. str_eq k.tenant_id tenant_id) keys)

unfoldable pub create : ApiKey → List ApiKey → List ApiKey
create entity keys = keys ++ (entity ∷ [])

-- `update`, by the function that sets the fields.
unfoldable pub update : String → (ApiKey → ApiKey) → List ApiKey → List ApiKey
update key_id updates keys = update_one (has_id key_id) updates keys

unfoldable pub touch : ℕ → String → String → List ApiKey → List ApiKey
touch now key_id ip keys =
    update_one (has_id key_id) (λ k. record k { last_used_at = some now; last_used_ip = some ip })
      keys

unfoldable pub delete : String → List ApiKey → List ApiKey
delete key_id keys = delete_one (has_id key_id) keys
