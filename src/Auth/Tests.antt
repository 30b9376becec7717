-- ===== src/Auth/Tests.antt =====
-- Runs of the sessions, tokens and logins, and the witnesses of their properties.
use sentora.Prelude.{
  All, Bool, List, Option, String, [], arith, false, if◌then◌else◌, inr, keep, none, refl, some,
  str_eq, str_eq_iff, sym, true, ℕ, ◌*◌, ◌-◌, ◌∙◌, ◌∷◌, ◌≡◌, ◌≢◌, ◌≤◌,
}
use sentora.Auth.Interleaving.{
  Run, Tokens, attempt, attempted, insert, inserted, no_tokens, exchanged_once, start, then_step,
}
use sentora.Auth.Lockout.{Guess, count_compared, guesses_bound}
use sentora.Auth.Login.{LockoutSettings, UserDoc, Users, authenticate_user, set_user}
use sentora.Auth.Reuse.{refresh_payload, token_id_of}
use sentora.Auth.Revocation.{revoke_session-ends, revoke_session-lost, session_id_of}
use sentora.Auth.Sessions.{
  AuthState, Login, RefreshToken, Session, assign_cache, delete_family,
  find_active_session_by_family, is_session_revoked, is_session_valid, new_session, read_revoked,
  revoke_all_user_sessions, revoke_session,
}
use sentora.Auth.Survival.{family_survives}
use sentora.Auth.Tokens.{
  Payload, TokenDraw, create_refresh_token, is_unused, mark_used, new_token, rotate_refresh_token,
}
use sentora.Collections.{Distinct, find_one}
use Prim.Native.String.{◌++◌ as ◌⧺◌}

abbrev login : String → String → Login
login username family = record {
  user_id = "u1";
  username = username;
  tenant_id = none;
  ip_address = "::1";
  user_agent = "curl";
  refresh_token_family = family;
}

abbrev token : String → String → RefreshToken
token id family = record {
  token_id = id;
  family_id = family;
  username = "ann";
  role = "admin";
  expires_at = 9000;
  created_at = 10;
  used = false;
}

abbrev session : String → String → Session
session id family = new_session 10 1 id (login "ann" family)

abbrev two_sessions : AuthState
two_sessions = record {
  sessions = session "s1" "f1" ∷ session "s2" "f2" ∷ [];
  refresh_tokens = token "t1" "f1" ∷ token "t2" "f2" ∷ [];
  revoked_session_ids = [];
}

differ : (a b : String) → str_eq a b ≡ false → a ≢ b
differ a b n e = let wrong : true ≡ false = sym ((str_eq_iff a b).1 e) ∙ n in cc wrong

sessions_apart : Distinct session_id_of two_sessions.sessions
sessions_apart = ((differ "s2" "s1" refl, tt), (tt, tt))

tokens_apart : Distinct token_id_of two_sessions.refresh_tokens
tokens_apart = ((differ "t2" "t1" refl, tt), (tt, tt))

abbrev draw_at : ℕ → String → TokenDraw
draw_at now id = record { now = now; token_id = id; family = "f9" }

fresh_session_is_valid : is_session_valid 50 "s1" two_sessions ≡ true
unfolding is_session_valid
fresh_session_is_valid = refl

expired_session_is_invalid : is_session_valid 90000 "s1" two_sessions ≡ false
unfolding is_session_valid
expired_session_is_invalid = refl

all_sessions_are_counted :
    (revoke_all_user_sessions 20 "ann" "all_sessions" (some "s2") two_sessions).0 ≡ 1
unfolding revoke_all_user_sessions
all_sessions_are_counted = refl

revoke_session-ends_example :
    let s' = (revoke_session 20 "s1" "user_revoked" two_sessions).1 in
    (is_session_revoked "s1" s' ≡ true)
    × (is_session_valid 30 "s1" s' ≡ false)
    × (keep (λ r. str_eq r.family_id "f1") s'.refresh_tokens ≡ [])
    × (is_session_valid 30 "s2" s' ≡ is_session_valid 30 "s2" two_sessions)
revoke_session-ends_example =
    revoke_session-ends 20 "s1" "user_revoked" two_sessions (session "s1" "f1") sessions_apart refl
      30 "s2" refl refl

revoke_session-lost_example :
    let s' =
      assign_cache
        (read_revoked 19 two_sessions)
        (revoke_session 20 "s1" "user_revoked" two_sessions).1 in
    (is_session_revoked "s1" s' ≡ false) × (is_session_valid 30 "s1" s' ≡ false)
revoke_session-lost_example =
    revoke_session-lost 20 "s1" "user_revoked" two_sessions (session "s1" "f1") sessions_apart refl
      19 30

-- A decoder of one token.
abbrev decode : String → Option Payload
decode t = if str_eq t "jwt" then some (refresh_payload "t1" "f1" "ann" "admin") else none

rotation_keeps_family :
    (rotate_refresh_token decode 7 (draw_at 20 "t3") "jwt" none two_sessions).0
    ≡ inr (record {
      username = "ann";
      role = "admin";
      session_id = some "s1";
      refresh_token = refresh_payload "t3" "f1" "ann" "admin";
    })
unfolding rotate_refresh_token mark_used create_refresh_token find_active_session_by_family
rotation_keeps_family = refl

abbrev logged_in : Tokens
logged_in = insert 7 (draw_at 20 "t1") "ann" "admin" (some "f1") no_tokens

abbrev once_exchanged : Tokens
once_exchanged = attempt "t1" logged_in

exchanging : Run no_tokens (attempt "t1" once_exchanged)
exchanging =
    then_step no_tokens once_exchanged (attempt "t1" once_exchanged)
      (then_step no_tokens logged_in once_exchanged
        (then_step no_tokens no_tokens logged_in (start no_tokens)
          (inserted 7 (draw_at 20 "t1") "ann" "admin" (some "f1") no_tokens tt))
        (attempted "t1" logged_in))
      (attempted "t1" once_exchanged)

one_is_exchanged : (attempt "t1" once_exchanged).exchanged ≡ ("t1" ∷ [])
unfolding mark_used create_refresh_token
one_is_exchanged = refl

exchanged_once_example :
    Distinct (λ i. i) (attempt "t1" once_exchanged).exchanged
    × All
        (λ i. find_one (is_unused i) (attempt "t1" once_exchanged).tokens ≡ none)
        (attempt "t1" once_exchanged).exchanged
exchanged_once_example = exchanged_once (attempt "t1" once_exchanged) exchanging

family_survives_example :
    let (first, marked) = mark_used "t1" two_sessions.refresh_tokens in
    let (second, same) = mark_used "t1" marked in
    let after =
      (create_refresh_token 7
        (draw_at 20 "t3")
        "ann"
        "admin"
        (some "f1")
        (delete_family "f1" same)).1 in
    (first ≡ true)
    × (second ≡ false)
    × (keep (λ x. str_eq x.family_id "f1") (delete_family "f1" same) ≡ [])
    × (find_one (is_unused "t3") after ≡ some (new_token 7 (draw_at 20 "t3") "ann" "admin" "f1"))
family_survives_example =
    family_survives 7 (draw_at 20 "t3") "t1" (token "t1" "f1") two_sessions.refresh_tokens
      tokens_apart (differ "t1" "t3" refl, (differ "t2" "t3" refl, tt)) refl refl

abbrev account : UserDoc
account = record {
  hashed_password = "h:secret";
  failed_login_attempts = 0;
  locked_until = none;
  known_user_agents = [];
  last_login_ip = none;
  last_login_at = none;
}

abbrev users : Users
users = set_user "ann" account (λ j. none)

-- A lock of one minute after two failures.
abbrev strict : LockoutSettings
strict = record { account_lockout_threshold = 2; account_lockout_duration_minutes = 1 }

abbrev is_password : String → String → Bool
is_password password hashed = str_eq hashed ("h:" ⧺ password)

abbrev guess : ℕ → Guess
guess now = record { now = now; later = now; password = "wrong" }

abbrev guesses : List Guess
guesses = guess 1 ∷ guess 2 ∷ guess 3 ∷ guess 70 ∷ guess 75 ∷ guess 200 ∷ []

four_are_compared : count_compared strict is_password "ann" guesses users ≡ 4
unfolding authenticate_user
four_are_compared = refl

right_password_resets :
    (authenticate_user strict is_password 5 5 "ann" "secret"
        (set_user "ann" (record account { failed_login_attempts = 1 }) users)).1
      "ann"
    ≡ some account
unfolding authenticate_user
right_password_resets = refl

guesses_bound_example :
    (count_compared strict is_password "ann" guesses users - 2) * (1 * 60) ≤ 200 - 0
guesses_bound_example =
    guesses_bound strict is_password "ann" guesses 0 200 users account refl
      (refl, (refl, (refl, (refl, (refl, (refl, tt))))))
      (
        omega arith,
        omega arith,
        (
          omega arith,
          omega arith,
          (
            omega arith,
            omega arith,
            (
              omega arith,
              omega arith,
              (omega arith, omega arith, (omega arith, omega arith, omega arith)),
            ),
          ),
        ),
      )
      refl refl (omega arith)
