-- ===== src/ApiKeys/Rotation.antt =====
-- What becomes of a key that is rotated or revoked (backend/domains/api_keys/service.py).
use sentora.Prelude.{
  All, Bool-cases, List, String, false, if◌then◌else◌, inl, inr, ltb, none, refl, some, str_eq,
  str_eq_iff, sym, true, ℕ, ◌+◌, ◌∙◌, ◌≡◌, ◌≢◌,
}
use sentora.ApiKeys.Access.{key_hash_of, presented, presented-Selects, usable}
use sentora.ApiKeys.Database.{Draw, KeyDb, full_key_of, owned}
use sentora.ApiKeys.Entities.{ApiKey}
use sentora.ApiKeys.Repository.{
  after, create, find_by_hash_including_grace, find_by_id, has_id, update,
}
use sentora.ApiKeys.Service.{retire, revoke, revoke_api_key, rotate_api_key, rotated_entity}
use sentora.Collections.{Distinct, find_one, update_one}
use sentora.Collections.Keyed.{
  All-update_one, find_one-All, find_one-append, find_one-others, find_one-update_one,
}

-- A key of the tenant, in a collection that keeps the hashes apart.
pub record Held (key_id tenant_id : String) (db : KeyDb) (k : ApiKey) : Type 0 where
  pub found : find_by_id key_id db.api_keys ≡ some k
  pub tenant : k.tenant_id ≡ tenant_id
  pub hashes_apart : Distinct key_hash_of db.api_keys

owned-Held :
    (key_id tenant_id : String) (db : KeyDb) (k : ApiKey)
    → Held key_id tenant_id db k
    → owned key_id tenant_id db ≡ some k
owned-Held key_id tenant_id db k h =
    rw (owned, h.found, (str_eq_iff k.tenant_id tenant_id).1 h.tenant) refl

found_one :
    {key_id tenant_id : String} {db : KeyDb} {k : ApiKey}
    → Held key_id tenant_id db k
    → find_one (has_id key_id) db.api_keys ≡ some k
unfolding find_by_id
found_one h = h.found

apart-false : (a b : String) → b ≢ a → str_eq a b ≡ false
apart-false a b n = elim (Bool-cases (str_eq a b)) [
  | inl y ↦ absurd (n (sym ((str_eq_iff a b).0 y)))
  | inr e ↦ e
]

-- What `find_by_hash_including_grace` finds after an update that keeps the hashes.
find-updated :
    (now : ℕ) (key_id tenant_id : String) (db : KeyDb) (k : ApiKey) (f : ApiKey → ApiKey)
    → Held key_id tenant_id db k
    → ((x : ApiKey) → (f x).key_hash ≡ x.key_hash)
    → find_by_hash_including_grace now k.key_hash (update key_id f db.api_keys)
      ≡ (if usable now (f k) then some (f k) else none)
unfolding find_by_id find_by_hash_including_grace update
find-updated now key_id tenant_id db k f h keeps =
    find_one-update_one key_hash_of (has_id key_id) (presented now k.key_hash) f db.api_keys k
      h.hashes_apart keeps h.found (presented-Selects now k.key_hash)
    ∙ rw (keeps k, (str_eq_iff k.key_hash k.key_hash).1 refl) refl

-- After `revoke_api_key` of a tenant's key, whatever its state, its hash is looked up with no result
-- at a time when no grace period of it runs, and while one runs the revoked key is still found.
pub revoke_api_key-find :
    (now later : ℕ) (key_id tenant_id revoked_by : String) (db : KeyDb) (k : ApiKey)
    → Held key_id tenant_id db k
    → find_by_hash_including_grace later k.key_hash
        (revoke_api_key now key_id tenant_id revoked_by db).1.api_keys
      ≡ (if after k.grace_expires_at later then some (revoke now revoked_by k) else none)
unfolding revoke_api_key
revoke_api_key-find now later key_id tenant_id revoked_by db k h =
    rw (revoke_api_key, owned-Held key_id tenant_id db k h)
      (find-updated later key_id tenant_id db k (revoke now revoked_by) h (λ x. refl))

-- What is found after a creation: what was found before it, or else the new key.
find-created :
    (now : ℕ) (h : String) (e : ApiKey) (keys : List ApiKey)
    → find_by_hash_including_grace now h (create e keys)
      ≡ (elim (find_by_hash_including_grace now h keys) [
        | none ↦ (if presented now h e then some e else none)
        | some y ↦ some y
      ])
unfolding find_by_hash_including_grace create
find-created now h e keys = find_one-append (presented now h) keys e

find-fresh :
    (now : ℕ) (h key_id : String) (f : ApiKey → ApiKey) (keys : List ApiKey)
    → ((x : ApiKey) → (f x).key_hash ≡ x.key_hash)
    → All (λ y. y.key_hash ≢ h) keys
    → find_by_hash_including_grace now h (update key_id f keys) ≡ none
unfolding find_by_hash_including_grace update
find-fresh now h key_id f keys keeps fresh =
    find_one-others key_hash_of h (presented now h) (update_one (has_id key_id) f keys)
      (presented-Selects now h) (All-update_one key_hash_of h (has_id key_id) f keys keeps fresh)

-- The key that takes an old one's place at a time: what it has of the old one, and what is new.
pub record Succeeds (k : ApiKey) (now : ℕ) (rotated_by : String) (e : ApiKey) : Type 0 where
  pub active : e.is_active ≡ true
  pub tenant : e.tenant_id ≡ k.tenant_id
  pub name : e.name ≡ k.name
  pub description : e.description ≡ k.description
  pub scopes : e.scopes ≡ k.scopes
  pub per_minute : e.rate_limit_per_minute ≡ k.rate_limit_per_minute
  pub per_hour : e.rate_limit_per_hour ≡ k.rate_limit_per_hour
  pub expiry : e.expires_at ≡ k.expires_at
  pub grace : e.grace_expires_at ≡ none
  pub origin : e.rotated_from_id ≡ some k.id
  pub created : e.created_at ≡ now
  pub creator : e.created_by ≡ rotated_by

module _ (sha256 : String → String) (d : Draw) where
  -- After `rotate_api_key` of a tenant's active key, when the new key's hash is none of the
  -- collection's, the old hash finds the old key, retired, up to the end of five minutes and nothing
  -- from then on, and the new hash finds at every time an active key with the old one's tenant, name,
  -- description, scopes, limits and expiry, which names the old one as its origin.
  pub rotate_api_key-find :
      (later : ℕ) (key_id tenant_id rotated_by : String) (db : KeyDb) (k : ApiKey)
      → Held key_id tenant_id db k
      → k.is_active ≡ true
      → All (λ y. y.key_hash ≢ sha256 (full_key_of d.random_part)) db.api_keys
      → let keys = (rotate_api_key sha256 d key_id tenant_id rotated_by db).1.api_keys in
        (find_by_hash_including_grace later k.key_hash keys ≡ (
          if ltb later (d.now + 300)
          then some (record k {
            is_active = false;
            revoked_at = some d.now;
            revoked_by = some rotated_by;
            grace_expires_at = some (d.now + 300);
          })
          else none))
        × ((e : ApiKey) × (find_by_hash_including_grace later
                (sha256 (full_key_of d.random_part))
                keys
              ≡ some e)
            × Succeeds k d.now rotated_by e)
  unfolding rotate_api_key
  rotate_api_key-find later key_id tenant_id rotated_by db k h active fresh =
      let new_hash = sha256 (full_key_of d.random_part) in
      let keeps : (x : ApiKey) → (retire d rotated_by x).key_hash ≡ x.key_hash = λ x. refl in
      let other : str_eq new_hash k.key_hash ≡ false = apart-false new_hash k.key_hash (
        find_one-All (λ y. y.key_hash ≢ new_hash) (has_id key_id) db.api_keys k (found_one h)
          fresh) in
      let old = find-updated later key_id tenant_id db k (retire d rotated_by) h keeps in
      let none_new =
        find-fresh later new_hash key_id (retire d rotated_by) db.api_keys keeps fresh in
      let entity = rotated_entity sha256 d rotated_by k in
      let keys = update key_id (retire d rotated_by) db.api_keys in
      let found_old = find-created later k.key_hash entity keys in
      let found_new = find-created later new_hash entity keys in
      rw (rotate_api_key, owned-Held key_id tenant_id db k h, active)
        (
          found_old ∙ elim (Bool-cases (ltb later (d.now + 300))) [
            | inl y ↦ rw (old, y) refl
            | inr n ↦ rw (old, n, other) refl
          ],
          (
            entity,
            found_new ∙ rw (none_new, (str_eq_iff new_hash new_hash).1 refl) refl,
            record {
              active = refl;
              tenant = refl;
              name = refl;
              description = refl;
              scopes = refl;
              per_minute = refl;
              per_hour = refl;
              expiry = refl;
              grace = refl;
              origin = refl;
              created = refl;
              creator = refl;
            },
          ),
        )
