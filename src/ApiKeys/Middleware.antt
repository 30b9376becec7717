-- ===== src/ApiKeys/Middleware.antt =====
-- The authentication of backend/domains/api_keys/middleware.py: by API key, by a user's token, and
-- what the routes require of the result. A response that is not granted carries its status and detail.
use Prim.Native.String.{slice, len, ◌++◌ as ◌⧺◌}
use text.Mathlib.Text.{starts_with}
use sentora.Prelude.{
  Bool, List, Option, String, [], false, if◌then◌else◌, inl, inr, ltb, none, not, some, str_eq, ℕ,
  ◌&&◌, ◌⊎◌,
}
use sentora.ApiKeys.Entities.{ApiKey, expand_scopes}
use sentora.ApiKeys.Limiters.{Limiters, Readings, rate_limited}
use sentora.ApiKeys.Repository.{after, find_by_hash_including_grace, touch}
use sentora.Scope.{member}

pub record AuthContext : Type 0 where
  pub auth_type : String
  pub tenant_id : String
  pub user_id : Option String
  pub user_role : Option String
  pub api_key_id : Option String
  pub api_key_name : Option String
  pub scopes : List String

pub data Response : Type 0 where
  refused : ℕ → String → Response
  granted : AuthContext → Response

-- The two headers, empty when the request does not carry them.
pub record Headers : Type 0 where
  pub authorization : String
  pub x_api_key : String

unfoldable pub extract_api_key : Headers → Option String
extract_api_key h =
    if starts_with h.authorization "Bearer sentora_sk_"
    then some (slice h.authorization 7 (len h.authorization))
    else if starts_with h.x_api_key "sentora_sk_"
    then some h.x_api_key
    else none

-- The readings of the clock, and whether the update of `last_used` succeeds.
pub record Instants : Type 0 where
  pub looked_up : ℕ
  pub in_grace : ℕ
  pub unexpired : ℕ
  pub readings : Readings
  pub touched : Option ℕ

-- The keys and the limiters of a worker.
pub record Gateway : Type 0 where
  pub keys : List ApiKey
  pub limiters : Limiters

-- `api_key.expires_at and ensure_utc(api_key.expires_at) < utc_now()`
abbrev pub has_expired : Option ℕ → ℕ → Bool
has_expired none now = false
has_expired (some t) now = ltb t now

abbrev pub key_context : ApiKey → AuthContext
key_context k = record {
  auth_type = "api_key";
  tenant_id = k.tenant_id;
  user_id = none;
  user_role = none;
  api_key_id = some k.id;
  api_key_name = some k.name;
  scopes = expand_scopes k.scopes;
}

-- The update of `last_used`, whose failure is only logged.
abbrev pub touch_if : Option ℕ → String → String → List ApiKey → List ApiKey
touch_if none key_id ip keys = keys
touch_if (some now) key_id ip keys = touch now key_id ip keys

-- `_authenticate_api_key` from the rate limit on.
abbrev pub admit : Instants → String → ApiKey → Gateway → Response × Gateway
admit at ip k g =
    let (limited, limiters') =
      rate_limited at.readings k.id k.rate_limit_per_minute k.rate_limit_per_hour g.limiters in
    if limited
    then (refused 429 "API key rate limit exceeded", record g { limiters = limiters' })
    else (
      granted (key_context k),
      record { keys = touch_if at.touched k.id ip g.keys; limiters = limiters' },
    )

-- `_authenticate_api_key`, for the hash of hashlib.
unfoldable pub authenticate_api_key :
    (String → String) → Instants → String → String → Gateway → Response × Gateway
authenticate_api_key sha256 at ip raw_key g =
    elim (find_by_hash_including_grace at.looked_up (sha256 raw_key) g.keys) [
      | none ↦ (refused 401 "Invalid API key", g)
      | some k ↦
          if not k.is_active && not (after k.grace_expires_at at.in_grace)
          then (refused 401 "API key revoked", g)
          else if has_expired k.expires_at at.unexpired
          then (refused 401 "API key expired", g)
          else admit at ip k g
    ]

-- The claims of a verified token that are read here.
pub record TokenPayload : Type 0 where
  pub sub : String
  pub role : String
  pub sid : Option String

-- `request.state`: the slug of the tenant, and the name of its database.
pub record RequestState : Type 0 where
  pub slug : Option String
  pub tenant_db_name : Option String

abbrev pub tenant_of : RequestState → String
tenant_of s =
    let fallback : String = elim s.tenant_db_name [ none ↦ "default" | some name ↦ name ] in
    elim s.slug [ none ↦ fallback | some slug ↦ if str_eq slug "" then fallback else slug ]

-- `payload.sid and is_session_revoked(payload.sid)`
abbrev pub session_revoked : (String → Bool) → Option String → Bool
session_revoked is_session_revoked none = false
session_revoked is_session_revoked (some sid) = not (str_eq sid "") && is_session_revoked sid

-- What the caller of `get_auth_context` finds around it: the verification of a token, which gives the
-- payload or the text of the error, and the two caches of revocations.
pub record Checks : Type 0 where
  pub verify_token : String → String ⊎ TokenPayload
  pub user_is_revoked : String → Bool
  pub session_is_revoked : String → Bool

-- `get_auth_context` when there is no API key.
abbrev pub user_context : Checks → RequestState → Headers → Response
user_context c s h =
    if not (starts_with h.authorization "Bearer ")
    then refused 401 "Authentication required"
    else elim (c.verify_token (slice h.authorization 7 (len h.authorization))) [
      | inl message ↦ refused 401 message
      | inr payload ↦
          if c.user_is_revoked payload.sub
          then refused 401 "Account has been disabled"
          else if session_revoked c.session_is_revoked payload.sid
          then refused 401 "Session has been revoked"
          else granted (record {
            auth_type = "jwt";
            tenant_id = tenant_of s;
            user_id = some payload.sub;
            user_role = some payload.role;
            api_key_id = none;
            api_key_name = none;
            scopes = [];
          })
    ]

unfoldable pub get_auth_context :
    (String → String)
    → Checks
    → Instants
    → String
    → RequestState
    → Headers
    → Gateway
    → Response × Gateway
get_auth_context sha256 c at ip s h g = elim (extract_api_key h) [
  | none ↦ (user_context c s h, g)
  | some raw_key ↦ authenticate_api_key sha256 at ip raw_key g
]

-- `_check_scope`
unfoldable pub require_scope : String → AuthContext → Response
require_scope scope auth =
    if str_eq auth.auth_type "api_key" && not (member scope auth.scopes)
    then refused 403 ("API key missing required scope: " ⧺ scope)
    else granted auth

-- `_check_user_auth`
unfoldable pub require_user_auth : AuthContext → Response
require_user_auth auth =
    if not (str_eq auth.auth_type "jwt")
    then refused 403 "This endpoint requires user authentication (JWT). API keys cannot access it."
    else granted auth
