-- ===== src/Auth/Sessions.antt =====
-- The sessions of backend/domains/auth/session_service.py, with the cache of revoked sessions of
-- session_revocation.py. A time is a number of seconds.
use sentora.Prelude.{
  Bool, List, Option, String, [], any, false, if◌then◌else◌, keep, length, ltb, none, not, some,
  str_eq, true, ℕ, ◌&&◌, ◌*◌, ◌++◌, ◌+◌, ◌||◌, ◌∷◌,
}
use sentora.Collections.{delete_many, find_one, update_many, update_one}
use sentora.Scope.{member}

pub record Session : Type 0 where
  pub id : String
  pub user_id : String
  pub username : String
  pub tenant_id : Option String
  pub created_at : ℕ
  pub last_active_at : ℕ
  pub expires_at : ℕ
  pub ip_address : String
  pub user_agent : String
  pub is_active : Bool
  pub revoked_at : Option ℕ
  pub revoked_reason : Option String
  pub refresh_token_family : String

-- A document of `refresh_tokens`.
pub record RefreshToken : Type 0 where
  pub token_id : String
  pub family_id : String
  pub username : String
  pub role : String
  pub expires_at : ℕ
  pub created_at : ℕ
  pub used : Bool

-- The two collections, and the cache of one worker (`_revoked_session_ids`).
pub record AuthState : Type 0 where
  pub sessions : List Session
  pub refresh_tokens : List RefreshToken
  pub revoked_session_ids : List String

-- The arguments of `create_session`.
pub record Login : Type 0 where
  pub user_id : String
  pub username : String
  pub tenant_id : Option String
  pub ip_address : String
  pub user_agent : String
  pub refresh_token_family : String

abbrev pub days : ℕ → ℕ
days n = n * 86400

abbrev pub new_session : ℕ → ℕ → String → Login → Session
new_session now session_max_lifetime_days session_id l = record {
  id = session_id;
  user_id = l.user_id;
  username = l.username;
  tenant_id = l.tenant_id;
  created_at = now;
  last_active_at = now;
  expires_at = now + days session_max_lifetime_days;
  ip_address = l.ip_address;
  user_agent = l.user_agent;
  is_active = true;
  revoked_at = none;
  revoked_reason = none;
  refresh_token_family = l.refresh_token_family;
}

unfoldable pub create_session : ℕ → ℕ → String → Login → AuthState → Session × AuthState
create_session now session_max_lifetime_days session_id l s =
    let session = new_session now session_max_lifetime_days session_id l in
    (session, record s { sessions = s.sessions ++ (session ∷ []) })

unfoldable pub get_session : String → AuthState → Option Session
get_session session_id s = find_one (λ x. str_eq x.id session_id) s.sessions

unfoldable pub find_active_session_by_family : String → AuthState → Option String
find_active_session_by_family family_id s =
    elim (find_one (λ x. str_eq x.refresh_token_family family_id && x.is_active) s.sessions) [
      | none ↦ none
      | some x ↦ some x.id
    ]

-- `list_user_sessions`, for the sort of the cursor.
unfoldable pub list_user_sessions :
    (List Session → List Session) → ℕ → Bool → String → AuthState → List Session
list_user_sessions most_recent now active_only username s = most_recent (
    keep
      (λ x.
        str_eq x.username username && (not active_only || (x.is_active && ltb now x.expires_at)))
      s.sessions)

-- `mark_session_revoked` and `mark_sessions_revoked`
abbrev pub mark_sessions_revoked : List String → AuthState → AuthState
mark_sessions_revoked session_ids s = record s {
  revoked_session_ids = s.revoked_session_ids ++ session_ids;
}

unfoldable pub is_session_revoked : String → AuthState → Bool
is_session_revoked session_id s = member session_id s.revoked_session_ids

abbrev pub revoked : ℕ → String → Session → Session
revoked now reason x = record x {
  is_active = false;
  revoked_at = some now;
  revoked_reason = some reason;
}

abbrev pub is_live : String → Session → Bool
is_live session_id x = str_eq x.id session_id && x.is_active

-- `delete_many({"family_id": family})`, for a family that is not empty.
abbrev pub delete_family : String → List RefreshToken → List RefreshToken
delete_family family tokens =
    if str_eq family "" then tokens else delete_many (λ t. str_eq t.family_id family) tokens

unfoldable pub revoke_session : ℕ → String → String → AuthState → Bool × AuthState
revoke_session now session_id reason s = elim (find_one (is_live session_id) s.sessions) [
  | none ↦ (false, s)
  | some x ↦ (
    true,
    mark_sessions_revoked (session_id ∷ []) (record s {
      sessions = update_one (is_live session_id) (revoked now reason) s.sessions;
      refresh_tokens = delete_family x.refresh_token_family s.refresh_tokens;
    }),
  )
]

-- The query of `revoke_all_user_sessions`.
abbrev pub revocable : String → Option String → Session → Bool
revocable username exclude x =
    str_eq x.username username
    && x.is_active
    && (elim exclude [ none ↦ true | some e ↦ str_eq e "" || not (str_eq x.id e) ])

abbrev pub is_empty : List Session → Bool
is_empty [] = true
is_empty (x ∷ xs) = false

abbrev pub listed_ids : List Session → List String
listed_ids [] = []
listed_ids (x ∷ xs) = x.id ∷ listed_ids xs

-- The families that are not empty.
abbrev pub families : List Session → List String
families [] = []
families (x ∷ xs) =
    let rest = families xs in
    if str_eq x.refresh_token_family "" then rest else x.refresh_token_family ∷ rest

-- `revoke_all_user_sessions`: without a session to revoke nothing is called.
unfoldable pub revoke_all_user_sessions :
    ℕ → String → String → Option String → AuthState → ℕ × AuthState
revoke_all_user_sessions now username reason exclude s =
    let found = keep (revocable username exclude) s.sessions in
    let listed : Session → Bool = λ x. member x.id (listed_ids found) in
    if is_empty found then (0, s) else (
      length (keep listed s.sessions),
      mark_sessions_revoked (listed_ids found) (record s {
        sessions = update_many listed (revoked now reason) s.sessions;
        refresh_tokens = delete_many (λ t. member t.family_id (families found)) s.refresh_tokens;
      }),
    )

unfoldable pub update_session_activity : ℕ → String → AuthState → AuthState
update_session_activity now session_id s = record s {
  sessions = update_one (is_live session_id) (λ x. record x { last_active_at = now }) s.sessions;
}

unfoldable pub is_session_valid : ℕ → String → AuthState → Bool
is_session_valid now session_id s =
    any (λ x. is_live session_id x && ltb now x.expires_at) s.sessions

-- `{"is_active": False, "revoked_at": {"$lt": cutoff}}`, for the cutoff `now - 30 days`.
abbrev pub is_old : ℕ → Session → Bool
is_old now x =
    not x.is_active && (elim x.revoked_at [ none ↦ false | some t ↦ ltb (t + days 30) now ])

unfoldable pub cleanup_expired_sessions : ℕ → AuthState → ℕ × AuthState
cleanup_expired_sessions now s =
    let marked =
      update_many (λ x. x.is_active && ltb x.expires_at now) (revoked now "expired") s.sessions in
    (length (keep (is_old now) marked), record s { sessions = delete_many (is_old now) marked })

-- The query of `refresh_revoked_sessions`, for the cutoff `now - 24 hours`.
abbrev pub recently_revoked : ℕ → Session → Bool
recently_revoked now x =
    not x.is_active
    && not (str_eq x.id "")
    && (elim x.revoked_at [ none ↦ false | some t ↦ ltb now (t + days 1) ])

-- `refresh_revoked_sessions` in its two steps: what it reads, and the assignment of the cache.
unfoldable pub read_revoked : ℕ → AuthState → List String
read_revoked now s = listed_ids (keep (recently_revoked now) s.sessions)

unfoldable pub assign_cache : List String → AuthState → AuthState
assign_cache session_ids s = record s { revoked_session_ids = session_ids }
