-- ===== src/Auth/Login.antt =====
-- The check of a password and the lockout of backend/domains/auth/service.py. The collection of users
-- has a unique index on the username, so it is a function of it; a missing counter reads as 0.
use sentora.Prelude.{
  Bool, List, Option, String, [], false, if◌then◌else◌, leb, length, ltb, none, not, some, str_eq,
  ℕ, ◌&&◌, ◌*◌, ◌++◌, ◌+◌, ◌||◌, ◌∷◌,
}
use sentora.Scope.{member}

-- The fields of a `users` document that the check reads and writes.
pub record UserDoc : Type 0 where
  pub hashed_password : String
  pub failed_login_attempts : ℕ
  pub locked_until : Option ℕ
  pub known_user_agents : List String
  pub last_login_ip : Option String
  pub last_login_at : Option ℕ

abbrev pub Users : Type 0
Users = String → Option UserDoc

pub record LockoutSettings : Type 0 where
  pub account_lockout_threshold : ℕ
  pub account_lockout_duration_minutes : ℕ

abbrev pub set_user : String → UserDoc → Users → Users
set_user username u users j = if str_eq j username then some u else users j

-- `locked_until and ensure_utc(locked_until) > utc_now()`
abbrev pub is_locked : ℕ → UserDoc → Bool
is_locked now u = elim u.locked_until [ none ↦ false | some t ↦ ltb now t ]

-- What a wrong password leaves: the counter, and the lock once it reaches the threshold.
abbrev pub count_failure : LockoutSettings → ℕ → UserDoc → UserDoc
count_failure c now u =
    let new_count = u.failed_login_attempts + 1 in
    if leb c.account_lockout_threshold new_count
    then record u {
      failed_login_attempts = new_count;
      locked_until = some (now + c.account_lockout_duration_minutes * 60);
    }
    else record u { failed_login_attempts = new_count }

abbrev pub clear_failures : UserDoc → UserDoc
clear_failures u =
    if ltb 0 u.failed_login_attempts
    then record u { failed_login_attempts = 0; locked_until = none }
    else u

-- `not hashed or not verify_password(password, hashed)`
abbrev pub is_wrong : (String → String → Bool) → String → UserDoc → Bool
is_wrong verify_password password u =
    str_eq u.hashed_password "" || not (verify_password password u.hashed_password)

-- `authenticate_user`, with its two readings of the clock and the check of bcrypt.
unfoldable pub authenticate_user :
    LockoutSettings
    → (String → String → Bool)
    → ℕ
    → ℕ
    → String
    → String
    → Users
    → Option UserDoc × Users
authenticate_user c verify_password now later username password users = elim (users username) [
  | none ↦ (none, users)
  | some u ↦
      if is_locked now u
      then (none, users)
      else if is_wrong verify_password password u
      then (none, set_user username (count_failure c later u) users)
      else (some u, set_user username (clear_failures u) users)
]

abbrev pub max_known_agents : ℕ
max_known_agents = 50

-- `record_login_metadata`: whether the device is new, and the update.
unfoldable pub record_login_metadata : ℕ → String → String → String → Users → Bool × Users
record_login_metadata now username ip_address user_agent users = elim (users username) [
  | none ↦ (false, users)
  | some u ↦
      let new_device = not (member user_agent u.known_user_agents) in
      let seen = record u { last_login_ip = some ip_address; last_login_at = some now } in
      let updated : UserDoc =
        if new_device && ltb (length u.known_user_agents) max_known_agents
        then record seen { known_user_agents = u.known_user_agents ++ (user_agent ∷ []) }
        else seen in
      (new_device, set_user username updated users)
]
