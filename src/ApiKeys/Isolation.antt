-- ===== src/ApiKeys/Isolation.antt =====
-- The tenants of the API keys are kept apart (backend/domains/api_keys/service.py).
use sentora.Prelude.{
  Bool, Bool-cases, List, Option-cases, String, [], append-nil, false, if◌then◌else◌, inl, inr,
  keep, keep-append, none, not, refl, some, str_eq, str_eq_iff, true, ℕ, ◌∙◌, ◌∷◌, ◌≡◌, ◌⊎◌,
}
use sentora.ApiKeys.Database.{
  CreateRequest, Draw, KeyDb, KeyResponse, Answer, UpdateRequest, audit, invalid_scopes, key_error,
  owned, raised, save, scope_error,
}
use sentora.ApiKeys.Entities.{ApiKey}
use sentora.ApiKeys.Repository.{create, find_by_id, has_id, update}
use sentora.ApiKeys.Service.{
  apply_updates, create_api_key, has_updates, or_else, reread, retire, revoke, revoke_api_key,
  rotate_api_key, rotated_entity, update_api_key,
}
use sentora.Collections.{find_one}
use sentora.Collections.Keyed.{keep-update_one}

-- The keys of the other tenants.
abbrev pub foreign : String → KeyDb → List ApiKey
foreign tenant_id db = keep (λ k. not (str_eq k.tenant_id tenant_id)) db.api_keys

owned-cases :
    (key_id tenant_id : String) (db : KeyDb)
    → (owned key_id tenant_id db ≡ none)
      ⊎ ((k : ApiKey) × (owned key_id tenant_id db ≡ some k)
          × (find_one (has_id key_id) db.api_keys ≡ some k)
          × (str_eq k.tenant_id tenant_id ≡ true))
unfolding find_by_id
owned-cases key_id tenant_id db = elim (Option-cases (find_one (has_id key_id) db.api_keys)) [
  | inl e ↦ inl (rw (owned, e) refl)
  | inr (k, e) ↦ elim (Bool-cases (str_eq k.tenant_id tenant_id)) [
    | inl y ↦ inr (k, rw (owned, e, y) refl, e, y)
    | inr n ↦ inl (rw (owned, e, n) refl)
  ]
]

foreign-update :
    (key_id tenant_id : String) (f : ApiKey → ApiKey) (db : KeyDb) (k : ApiKey)
    → ((x : ApiKey) → (f x).tenant_id ≡ x.tenant_id)
    → find_one (has_id key_id) db.api_keys ≡ some k
    → str_eq k.tenant_id tenant_id ≡ true
    → foreign tenant_id (save (update key_id f) db) ≡ foreign tenant_id db
unfolding update
foreign-update key_id tenant_id f db k keeps e same =
    keep-update_one (λ x. not (str_eq x.tenant_id tenant_id)) (has_id key_id) f db.api_keys k e
      (rw same refl) (rw (keeps k, same) refl)

foreign-create :
    (tenant_id : String) (e : ApiKey) (keys : List ApiKey)
    → str_eq e.tenant_id tenant_id ≡ true
    → keep (λ k. not (str_eq k.tenant_id tenant_id)) (create e keys)
      ≡ keep (λ k. not (str_eq k.tenant_id tenant_id)) keys
unfolding create
foreign-create tenant_id e keys same =
    keep-append (λ k. not (str_eq k.tenant_id tenant_id)) keys (e ∷ []) ∙ rw same (append-nil _)

-- The branches of `update_api_key` once the key is found.
abbrev branches :
    Bool → Bool → Bool → Answer KeyResponse → KeyDb → KeyDb → Answer KeyResponse × KeyDb
branches active invalid changed answer db db' =
    if not active
    then (raised key_error, db)
    else if invalid
    then (raised scope_error, db)
    else (answer, if changed then db' else db)

foreign-branches :
    (tenant_id : String) (active invalid changed : Bool) (answer : Answer KeyResponse)
    (db db' : KeyDb)
    → foreign tenant_id db' ≡ foreign tenant_id db
    → foreign tenant_id (branches active invalid changed answer db db').1 ≡ foreign tenant_id db
foreign-branches tenant_id false invalid changed answer db db' h = refl
foreign-branches tenant_id true true changed answer db db' h = refl
foreign-branches tenant_id true false true answer db db' h = h
foreign-branches tenant_id true false false answer db db' h = refl

module _ (sha256 : String → String) (tenant_id actor : String) (db : KeyDb) where
  create-foreign :
      (d : Draw) (req : CreateRequest)
      → foreign tenant_id (create_api_key sha256 d req tenant_id actor db).1 ≡ foreign tenant_id db
  unfolding create_api_key
  create-foreign d req = elim (Bool-cases (invalid_scopes req.scopes)) [
    | inl y ↦ rw (create_api_key, y) refl
    | inr n ↦
        rw (create_api_key, n)
          (foreign-create tenant_id _ db.api_keys ((str_eq_iff tenant_id tenant_id).1 refl))
  ]

  update-foreign :
      (key_id : String) (req : UpdateRequest)
      → foreign tenant_id (update_api_key key_id req tenant_id actor db).1 ≡ foreign tenant_id db
  unfolding update_api_key
  update-foreign key_id req = elim (owned-cases key_id tenant_id db) [
    | inl e ↦ rw (update_api_key, e) refl
    | inr (k, o, e, same) ↦
        let db' =
          audit "api_key.updated" actor key_id (save (update key_id (apply_updates req)) db) in
        rw (update_api_key, o)
          (foreign-branches tenant_id k.is_active (invalid_scopes (or_else req.scopes []))
            (has_updates req) (reread key_id (if has_updates req then db' else db)) db db'
            (foreign-update key_id tenant_id (apply_updates req) db k (λ x. refl) e same))
  ]

  revoke-foreign :
      (now : ℕ) (key_id : String)
      → foreign tenant_id (revoke_api_key now key_id tenant_id actor db).1 ≡ foreign tenant_id db
  unfolding revoke_api_key
  revoke-foreign now key_id = elim (owned-cases key_id tenant_id db) [
    | inl e ↦ rw (revoke_api_key, e) refl
    | inr (k, o, e, same) ↦
        rw (revoke_api_key, o)
          (foreign-update key_id tenant_id (revoke now actor) db k (λ x. refl) e same)
  ]

  rotate-foreign :
      (d : Draw) (key_id : String)
      → foreign tenant_id (rotate_api_key sha256 d key_id tenant_id actor db).1
        ≡ foreign tenant_id db
  unfolding rotate_api_key
  rotate-foreign d key_id = elim (owned-cases key_id tenant_id db) [
    | inl e ↦ rw (rotate_api_key, e) refl
    | inr (k, o, e, same) ↦ elim (Bool-cases k.is_active) [
      | inr n ↦ rw (rotate_api_key, o, n) refl
      | inl y ↦
          rw (rotate_api_key, o, y)
            (foreign-create tenant_id (rotated_entity sha256 d actor k) _ same
              ∙ foreign-update key_id tenant_id (retire d actor) db k (λ x. refl) e same)
    ]
  ]

  -- Whatever a tenant's administrator asks for, and whichever key is named, the keys of the other
  -- tenants stay as they are.
  pub operations-foreign :
      (d : Draw) (key_id : String) (created : CreateRequest) (updated : UpdateRequest)
      → (foreign tenant_id (create_api_key sha256 d created tenant_id actor db).1
          ≡ foreign tenant_id db)
        × (foreign tenant_id (update_api_key key_id updated tenant_id actor db).1
            ≡ foreign tenant_id db)
        × (foreign tenant_id (revoke_api_key d.now key_id tenant_id actor db).1
            ≡ foreign tenant_id db)
        × (foreign tenant_id (rotate_api_key sha256 d key_id tenant_id actor db).1
            ≡ foreign tenant_id db)
  operations-foreign d key_id created updated = (
    create-foreign d created,
    update-foreign key_id updated,
    revoke-foreign d.now key_id,
    rotate-foreign d key_id,
  )
