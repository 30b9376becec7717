-- ===== src/ApiKeys/Tests.antt =====
-- Runs of the API keys' operations, and the witnesses of their properties.
use sentora.Prelude.{
  List, String, [], arith, false, if◌then◌else◌, ltb, none, refl, some, str_eq, str_eq_iff, sym,
  true, ℕ, ◌↔◌, ◌∙◌, ◌∷◌, ◌≡◌, ◌≢◌,
}
use sentora.ApiKeys.Access.{Admits, InUse, Unexpired, authenticate_api_key-granted, key_hash_of}
use sentora.ApiKeys.Database.{CreateRequest, Draw, KeyDb, UpdateRequest}
use sentora.ApiKeys.Documents.{doc_to_entity, doc_to_entity-entity_to_doc, entity_to_doc}
use sentora.ApiKeys.Entities.{ApiKey, write_scopes}
use sentora.ApiKeys.Isolation.{foreign, operations-foreign}
use sentora.ApiKeys.Limiters.{Limiters}
use sentora.ApiKeys.Middleware.{
  Gateway, Instants, authenticate_api_key, extract_api_key, granted, key_context, refused,
}
use sentora.ApiKeys.Repository.{
  after, create, find_by_hash, find_by_hash_including_grace, find_by_id, update,
}
use sentora.ApiKeys.Rotation.{Held, revoke_api_key-find, rotate_api_key-find, Succeeds}
use sentora.ApiKeys.Service.{
  create_api_key, retire, revoke, revoke_api_key, rotate_api_key, update_api_key,
}
use sentora.Collections.{Distinct}
use Prim.Native.String.{◌++◌ as ◌⧺◌}

abbrev digest : String → String
digest s = "h:" ⧺ s

abbrev sample : String → String → String → ApiKey
sample id tenant_id key_hash = record {
  id = id;
  tenant_id = tenant_id;
  name = "ci";
  key_prefix = "sentora_sk_live_";
  key_hash = key_hash;
  scopes = "read:all" ∷ "tags:write" ∷ [];
  created_at = 10;
  created_by = "admin";
  description = none;
  rate_limit_per_minute = 2;
  rate_limit_per_hour = 1000;
  expires_at = some 9000;
  last_used_at = none;
  last_used_ip = none;
  is_active = true;
  revoked_at = none;
  revoked_by = none;
  grace_expires_at = none;
  rotated_from_id = none;
}

abbrev key_of_acme : ApiKey
key_of_acme = sample "k1" "acme" "h:sentora_sk_live_aa"

abbrev key_of_other : ApiKey
key_of_other = sample "k2" "other" "h:sentora_sk_live_bb"

abbrev two_keys : KeyDb
two_keys = record { api_keys = key_of_other ∷ key_of_acme ∷ []; audited = [] }

abbrev draw_at : ℕ → Draw
draw_at now = record { now = now; object_id = "k3"; random_part = "cc" }

differ : (a b : String) → str_eq a b ≡ false → a ≢ b
differ a b n e = let wrong : true ≡ false = sym ((str_eq_iff a b).1 e) ∙ n in cc wrong

hashes_differ : Distinct key_hash_of two_keys.api_keys
hashes_differ = ((differ "h:sentora_sk_live_aa" "h:sentora_sk_live_bb" refl, tt), (tt, tt))

acme_holds : Held "k1" "acme" two_keys key_of_acme
unfolding find_by_id
acme_holds = record { found = refl; tenant = refl; hashes_apart = hashes_differ }

abbrev no_limiters : Limiters
no_limiters = record { minute_limiters = λ k. none; hour_limiters = λ k. none; access_count = 0 }

abbrev instants : ℕ → Instants
instants now = record {
  looked_up = now;
  in_grace = now;
  unexpired = now;
  readings = record {
    swept = now;
    minute_accessed = now;
    hour_accessed = now;
    minute_now = now;
    minute_later = now;
    hour_now = now;
    hour_later = now;
  };
  touched = some now;
}

abbrev gateway : Gateway
gateway = record { keys = two_keys.api_keys; limiters = no_limiters }

writes_are_listed : write_scopes ≡ ("sync:trigger" ∷ "enforcement:write" ∷ "tags:write" ∷ [])
writes_are_listed = refl

bearer_is_extracted :
    extract_api_key (record { authorization = "Bearer sentora_sk_live_aa"; x_api_key = "" })
    ≡ some "sentora_sk_live_aa"
unfolding extract_api_key
bearer_is_extracted = refl

unknown_is_refused :
    (authenticate_api_key digest (instants 20) "::1" "sentora_sk_live_zz" gateway).0
    ≡ refused 401 "Invalid API key"
unfolding authenticate_api_key find_by_hash_including_grace
unknown_is_refused = refl

doc_to_entity-entity_to_doc_example : doc_to_entity (entity_to_doc key_of_acme) ≡ some key_of_acme
doc_to_entity-entity_to_doc_example = doc_to_entity-entity_to_doc key_of_acme

held_by_hash : find_by_hash (digest "sentora_sk_live_aa") gateway.keys ≡ some key_of_acme
unfolding find_by_hash
held_by_hash = refl

authenticate_api_key-granted_example :
    ((authenticate_api_key digest (instants 20) "::1" "sentora_sk_live_aa" gateway).0
      ≡ granted (key_context key_of_acme))
    ↔ (InUse 20 key_of_acme
        × Unexpired 20 key_of_acme
        × Admits (instants 20).readings key_of_acme no_limiters)
authenticate_api_key-granted_example =
    authenticate_api_key-granted digest (instants 20) "::1" "sentora_sk_live_aa" gateway key_of_acme
      hashes_differ held_by_hash (omega arith)

revoke_api_key-find_example :
    find_by_hash_including_grace 30 "h:sentora_sk_live_aa"
      (revoke_api_key 25 "k1" "acme" "admin" two_keys).1.api_keys
    ≡ (if after none 30 then some (revoke 25 "admin" key_of_acme) else none)
revoke_api_key-find_example =
    revoke_api_key-find 25 30 "k1" "acme" "admin" two_keys key_of_acme acme_holds

abbrev rotated : List ApiKey
rotated = (rotate_api_key digest (draw_at 25) "k1" "acme" "admin" two_keys).1.api_keys

rotate_api_key-find_example :
    (find_by_hash_including_grace 30 "h:sentora_sk_live_aa" rotated ≡ (
      if ltb 30 325
      then some (record key_of_acme {
        is_active = false;
        revoked_at = some 25;
        revoked_by = some "admin";
        grace_expires_at = some 325;
      })
      else none))
    × ((e : ApiKey) × (find_by_hash_including_grace 30 "h:sentora_sk_live_cc" rotated ≡ some e)
        × Succeeds key_of_acme 25 "admin" e)
rotate_api_key-find_example =
    rotate_api_key-find digest (draw_at 25) 30 "k1" "acme" "admin" two_keys key_of_acme acme_holds
      refl
      (
        differ "h:sentora_sk_live_bb" "h:sentora_sk_live_cc" refl,
        (differ "h:sentora_sk_live_aa" "h:sentora_sk_live_cc" refl, tt),
      )

-- A key that is revoked during its grace period is found until the period ends.
revoked_in_grace_is_found :
    find_by_hash_including_grace 60 "h:sentora_sk_live_aa"
      (revoke_api_key 50 "k1" "acme" "admin"
        (rotate_api_key digest (draw_at 25) "k1" "acme" "admin" two_keys).1).1.api_keys
    ≡ some (revoke 50 "admin" (retire (draw_at 25) "admin" key_of_acme))
unfolding find_by_hash_including_grace revoke_api_key rotate_api_key update create find_by_id
revoked_in_grace_is_found = refl

abbrev creation : CreateRequest
creation = record {
  name = "new";
  description = none;
  scopes = "apps:read" ∷ [];
  rate_limit_per_minute = 60;
  rate_limit_per_hour = 1000;
  expires_at = none;
}

abbrev renaming : UpdateRequest
renaming = record {
  name = some "renamed";
  description = none;
  scopes = none;
  rate_limit_per_minute = none;
  rate_limit_per_hour = none;
  expires_at = none;
}

operations-foreign_example :
    (foreign "acme" (create_api_key digest (draw_at 25) creation "acme" "admin" two_keys).1
      ≡ foreign "acme" two_keys)
    × (foreign "acme" (update_api_key "k1" renaming "acme" "admin" two_keys).1
        ≡ foreign "acme" two_keys)
    × (foreign "acme" (revoke_api_key 25 "k1" "acme" "admin" two_keys).1 ≡ foreign "acme" two_keys)
    × (foreign "acme" (rotate_api_key digest (draw_at 25) "k1" "acme" "admin" two_keys).1
        ≡ foreign "acme" two_keys)
operations-foreign_example =
    operations-foreign digest "acme" "admin" two_keys (draw_at 25) "k1" creation renaming
