-- ===== src/ApiKeys/Access.antt =====
-- Which requests an API key opens (backend/domains/api_keys/middleware.py).
use sentora.Prelude.{
  subst, sym, Bool, Bool-cases, List, Option, Option-cases, String, ◌<◌, ◌%◌, ◌+◌, ◌⊎◌, ltb, ◌==◌,
  ==_iff, arith, false, if◌then◌else◌, inl, inr, none, not, refl, some, str_eq, str_eq_iff, true, ℕ,
  ◌&&◌, ◌||◌, ◌↔◌, ◌∙◌, ◌≡◌, ◌≢◌, ◌≤◌,
}
use sentora.ApiKeys.Entities.{ApiKey, expand_scopes}
use sentora.ApiKeys.Limiters.{
  LimiterEntry, LimiterStore, Limiters, Readings, get_hour_limiter, get_minute_limiter, hit, put,
  evict_stale_limiters, limiter_cleanup_interval, rate_limited, renewed,
}
use sentora.RateLimit.{is_limited}
use sentora.ApiKeys.Middleware.{
  AuthContext, Gateway, Instants, Response, authenticate_api_key, has_expired, granted, key_context,
  refused, require_scope, require_user_auth, touch_if,
}
use sentora.ApiKeys.Repository.{after, find_by_hash, find_by_hash_including_grace}
use sentora.ApiKeys.Scopes.{expand_scopes-grants, grants}
use sentora.Collections.{Distinct}
use sentora.Collections.Keyed.{Selects, find_one-narrow, find_one-test}

abbrev pub usable : ℕ → ApiKey → Bool
usable now k = k.is_active || after k.grace_expires_at now

-- The test of `find_by_hash_including_grace`.
abbrev pub presented : ℕ → String → ApiKey → Bool
presented now h k = str_eq k.key_hash h && usable now k

abbrev pub key_hash_of : ApiKey → String
key_hash_of k = k.key_hash

pub presented-Selects : (now : ℕ) (h : String) → Selects key_hash_of h (presented now h)
presented-Selects now h k e = elim (Bool-cases (str_eq k.key_hash h)) [
  | inl y ↦ (str_eq_iff k.key_hash h).0 y
  | inr n ↦ let wrong : false ≡ true = rw n at e in cc wrong
]

pub has_hash-Selects : (h : String) → Selects key_hash_of h (λ k. str_eq k.key_hash h)
has_hash-Selects h k e = (str_eq_iff k.key_hash h).0 e

pub find-including_grace :
    (now : ℕ) (h : String) (keys : List ApiKey) (k : ApiKey)
    → Distinct key_hash_of keys
    → find_by_hash h keys ≡ some k
    → find_by_hash_including_grace now h keys ≡ (if usable now k then some k else none)
unfolding find_by_hash find_by_hash_including_grace
find-including_grace now h keys k d e =
    let found = find_one-test (λ x. str_eq x.key_hash h) keys k e in
    let same = has_hash-Selects h k found in
    let narrow =
      find_one-narrow key_hash_of h (λ x. str_eq x.key_hash h) (presented now h) keys k d e same
        (has_hash-Selects h) (presented-Selects now h) in
    narrow ∙ rw found refl

usable_later : (s t : ℕ) (k : ApiKey) → s ≤ t → usable s k ≡ false → usable t k ≡ false
usable_later s t k le e = elim (Option-cases k.grace_expires_at) [
  | inl no_grace ↦ ground (arith, no_grace)
  | inr (end, has) ↦ ground (arith, has)
]

abbrev guarded :
    Bool → Bool → Bool → Bool → AuthContext → Gateway → Gateway → Gateway → Response × Gateway
guarded active grace late exceeded c g g' g'' =
    if not active && not grace
    then (refused 401 "API key revoked", g)
    else if late
    then (refused 401 "API key expired", g)
    else if exceeded
    then (refused 429 "API key rate limit exceeded", g')
    else (granted c, g'')

-- The guards of `_authenticate_api_key` let a request in exactly when none of them holds.
guards_lem :
    (active grace late exceeded : Bool) (c : AuthContext) (g g' g'' : Gateway)
    → ((guarded active grace late exceeded c g g' g'').0 ≡ granted c)
      ↔ (((active || grace) ≡ true) × (late ≡ false) × (exceeded ≡ false))
guards_lem true grace true exceeded c g g' g'' = ground arith
guards_lem true grace false true c g g' g'' = ground arith
guards_lem true grace false false c g g' g'' = ground arith
guards_lem false false late exceeded c g g' g'' = ground arith
guards_lem false true true exceeded c g g' g'' = ground arith
guards_lem false true false true c g g' g'' = ground arith
guards_lem false true false false c g g' g'' = ground arith

-- A key that may be used at a time: it is active, or its grace period ends later.
abbrev pub InUse : ℕ → ApiKey → Type 0
InUse now k = (k.is_active ≡ true) ⊎ ((end : ℕ) × (k.grace_expires_at ≡ some end) × (now < end))

-- A key that has no expiry, or one that is not past.
abbrev pub Unexpired : ℕ → ApiKey → Type 0
Unexpired now k = (k.expires_at ≡ none) ⊎ ((end : ℕ) × (k.expires_at ≡ some end) × (now ≤ end))

-- A limiter that holds an entry of a key with the key's limit, and has room for one more request.
abbrev pub HasRoom : ℕ → ℕ → ℕ → String → ℕ → LimiterStore → Type 0
HasRoom window now later key_id limit store =
    (e : LimiterEntry) × (store key_id ≡ some e)
    × (e.limit ≡ limit)
    × ((is_limited (record { max_requests = limit; window_seconds = window }) now later key_id
          e.limiter).0
        ≡ false)

-- Both limiters of a key, as they are once the request has looked them up, have room.
abbrev pub Admits : Readings → ApiKey → Limiters → Type 0
Admits r k s =
    let s' =
      get_hour_limiter r.hour_accessed k.id k.rate_limit_per_hour
        (get_minute_limiter r.swept r.minute_accessed k.id k.rate_limit_per_minute s) in
    HasRoom 60 r.minute_now r.minute_later k.id k.rate_limit_per_minute s'.minute_limiters
    × HasRoom 3600 r.hour_now r.hour_later k.id k.rate_limit_per_hour s'.hour_limiters

usable-InUse : (now : ℕ) (k : ApiKey) → (usable now k ≡ true) ↔ InUse now k
usable-InUse now k = elim (Option-cases k.grace_expires_at) [
  | inl gone ↦ elim (Bool-cases k.is_active) [
    | inl on ↦ ((λ e. inl on), (λ u. rw on refl))
    | inr off ↦ (
      (λ e. let wrong : false ≡ true = rw (off, gone) at e in cc wrong),
      (λ u. elim u [ inl on ↦ rw on refl | inr (end, held, later) ↦ cc (gone, held) ]),
    )
  ]
  | inr (t, held) ↦ elim (Bool-cases k.is_active) [
    | inl on ↦ ((λ e. inl on), (λ u. rw on refl))
    | inr off ↦ (
      (λ e.
          let open_still : ltb now t ≡ true = rw (off, held) at e in
          inr (t, held, ground (arith, open_still))),
      (λ u. elim u [
        | inl on ↦ rw on refl
        | inr (end, held', later) ↦ rw (off, held') (ground (arith, later))
      ]),
    )
  ]
]

has_expired-Unexpired :
    (now : ℕ) (k : ApiKey) → (has_expired k.expires_at now ≡ false) ↔ Unexpired now k
has_expired-Unexpired now k = elim (Option-cases k.expires_at) [
  | inl gone ↦ ((λ e. inl gone), (λ u. rw gone refl))
  | inr (t, held) ↦ (
    (λ e. let late : ltb t now ≡ false = rw held at e in inr (t, held, ground (arith, late))),
    (λ u. elim u [
      | inl gone ↦ rw gone refl
      | inr (end, held', later) ↦ rw held' (ground (arith, later))
    ]),
  )
]

renewed-limit : (now limit : ℕ) (o : Option LimiterEntry) → (renewed now limit o).limit ≡ limit
renewed-limit now limit none = refl
renewed-limit now limit (some e) = elim (Bool-cases (e.limit == limit)) [
  | inl y ↦ rw y ((==_iff e.limit limit).0 y)
  | inr n ↦ rw n refl
]

-- An entry of a key with its limit.
abbrev Entry : String → ℕ → LimiterStore → Type 0
Entry id limit store = (e : LimiterEntry) × (store id ≡ some e) × (e.limit ≡ limit)

put-Entry :
    (id : String) (limit : ℕ) (e : LimiterEntry) (store : LimiterStore)
    → e.limit ≡ limit
    → Entry id limit (put id e store)
put-Entry id limit e store same = (e, rw ((str_eq_iff id id).1 refl) refl, same)

get_minute_limiter-Entry :
    (swept now : ℕ) (id : String) (limit : ℕ) (s : Limiters)
    → Entry id limit (get_minute_limiter swept now id limit s).minute_limiters
unfolding get_minute_limiter
get_minute_limiter-Entry swept now id limit s =
    let counted = record s { access_count = s.access_count + 1 } in
    let swept_to =
      if (s.access_count + 1) % limiter_cleanup_interval == 0
      then evict_stale_limiters swept counted
      else counted in
    let e = renewed now limit (swept_to.minute_limiters id) in
    put-Entry id limit e swept_to.minute_limiters (renewed-limit now limit _)

get_hour_limiter-Entry :
    (now : ℕ) (id : String) (limit : ℕ) (s : Limiters)
    → Entry id limit (get_hour_limiter now id limit s).hour_limiters
unfolding get_hour_limiter
get_hour_limiter-Entry now id limit s =
    put-Entry id limit (renewed now limit (s.hour_limiters id)) s.hour_limiters
      (renewed-limit now limit (s.hour_limiters id))

hit-HasRoom :
    (window now later : ℕ) (key_id : String) (limit : ℕ) (store : LimiterStore)
    → Entry key_id limit store
    → ((hit window now later key_id store).0 ≡ false) ↔ HasRoom window now later key_id limit store
hit-HasRoom window now later key_id limit store (e, held, same) =
    let Free : LimiterEntry → ℕ → Type 0 = λ x n.
      (is_limited (record { max_requests = n; window_seconds = window }) now later key_id
        x.limiter).0
      ≡ false in
    (
      (λ free.
          let own : Free e e.limit = rw (hit, held) at free in
          (e, held, same, subst (Free e) same own)),
      (λ room.
          let (x, held', same', free) = room in rw (hit, held') (subst (Free x) (sym same') free)),
    )

rate_limited-Admits :
    (r : Readings) (k : ApiKey) (s : Limiters)
    → ((rate_limited r k.id k.rate_limit_per_minute k.rate_limit_per_hour s).0 ≡ false)
      ↔ Admits r k s
unfolding rate_limited get_hour_limiter
rate_limited-Admits r k s =
    let s' = get_minute_limiter r.swept r.minute_accessed k.id k.rate_limit_per_minute s in
    let s1 = get_hour_limiter r.hour_accessed k.id k.rate_limit_per_hour s' in
    let minute =
      hit-HasRoom 60 r.minute_now r.minute_later k.id k.rate_limit_per_minute s1.minute_limiters
        (get_minute_limiter-Entry r.swept r.minute_accessed k.id k.rate_limit_per_minute s) in
    let hour =
      hit-HasRoom 3600 r.hour_now r.hour_later k.id k.rate_limit_per_hour s1.hour_limiters
        (get_hour_limiter-Entry r.hour_accessed k.id k.rate_limit_per_hour s') in
    elim (Bool-cases (hit 60 r.minute_now r.minute_later k.id s1.minute_limiters).0) [
      | inl y ↦ rw (rate_limited, y) ((λ w. cc w), (λ a. let free = minute.1 a.0 in cc (free, y)))
      | inr n ↦ rw (rate_limited, n) ((λ free. (minute.0 n, hour.0 free)), (λ a. hour.1 a.1))
    ]

both_ways {ℓ ℓ'} :
    {X : Type ℓ} {A B C A' B' C' : Type ℓ'}
    → X ↔ (A × B × C)
    → A ↔ A'
    → B ↔ B'
    → C ↔ C'
    → X ↔ (A' × B' × C')
both_ways x a b c = (
  (λ h. let (p, q, r) = x.0 h in (a.0 p, b.0 q, c.0 r)),
  (λ h. let (p, q, r) = h in x.1 (a.1 p, b.1 q, c.1 r)),
)

module _ (sha256 : String → String) (at : Instants) (ip raw_key : String) (g : Gateway) (k : ApiKey)
    (distinct : Distinct key_hash_of g.keys) (held : find_by_hash (sha256 raw_key) g.keys ≡ some k)
    (in_order : at.looked_up ≤ at.in_grace) where
  authenticate_api_key-guards :
      ((authenticate_api_key sha256 at ip raw_key g).0 ≡ granted (key_context k)) ↔ (
        (usable at.in_grace k ≡ true)
        × (has_expired k.expires_at at.unexpired ≡ false)
        × ((rate_limited at.readings k.id k.rate_limit_per_minute k.rate_limit_per_hour
              g.limiters).0
            ≡ false))
  unfolding authenticate_api_key
  authenticate_api_key-guards =
      let lookup = find-including_grace at.looked_up (sha256 raw_key) g.keys k distinct held in
      let limited =
        rate_limited at.readings k.id k.rate_limit_per_minute k.rate_limit_per_hour g.limiters in
      elim (Bool-cases (usable at.looked_up k)) [
        | inr unused ↦
            let still_unused : usable at.in_grace k ≡ false =
              usable_later at.looked_up at.in_grace k in_order unused in
            rw (authenticate_api_key, lookup, unused, still_unused) (ground arith)
        | inl used ↦
            rw (authenticate_api_key, lookup, used)
              (guards_lem k.is_active (after k.grace_expires_at at.in_grace)
                (has_expired k.expires_at at.unexpired) limited.0 (key_context k) g
                (record g { limiters = limited.1 })
                (record { keys = touch_if at.touched k.id ip g.keys; limiters = limited.1 }))
      ]

  -- A request with the key `k`, which is the only one of its hash, is let in, with the key's tenant
  -- and scopes, exactly when the key is active or its grace period still runs, it has not expired, and
  -- neither of its two limiters refuses it.
  pub authenticate_api_key-granted :
      ((authenticate_api_key sha256 at ip raw_key g).0
        ≡ granted (record {
          auth_type = "api_key";
          tenant_id = k.tenant_id;
          user_id = none;
          user_role = none;
          api_key_id = some k.id;
          api_key_name = some k.name;
          scopes = expand_scopes k.scopes;
        }))
      ↔ (InUse at.in_grace k × Unexpired at.unexpired k × Admits at.readings k g.limiters)
  authenticate_api_key-granted =
      both_ways authenticate_api_key-guards (usable-InUse at.in_grace k)
        (has_expired-Unexpired at.unexpired k) (rate_limited-Admits at.readings k g.limiters)

-- A route that requires a scope lets a key in exactly when the key's scopes grant it: by its name, by
-- `read:all` or `write:all` for a scope to read, and by `write:all` for a scope to write. A route that
-- requires a user lets no key in.
pub require_scope-grants :
    (k : ApiKey) (s : String)
    → ((require_scope s (key_context k) ≡ granted (key_context k)) ↔ (grants s k.scopes ≡ true))
      × (require_user_auth (key_context k) ≢ granted (key_context k))
unfolding require_scope require_user_auth
require_scope-grants k s =
    let member_eq = expand_scopes-grants s k.scopes in
    elim (Bool-cases (grants s k.scopes)) [
      | inl y ↦ rw (member_eq, y) (ground arith)
      | inr n ↦ rw (member_eq, n) (ground arith)
    ]
