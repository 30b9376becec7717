-- ===== src/Auth/Tokens.antt =====
-- The refresh tokens of backend/domains/auth/service.py. The encoding of a token is python-jose's: a
-- verified token is its payload, of which a missing claim is `none`.
use sentora.Prelude.{
  Bool, List, Option, String, [], false, if◌then◌else◌, inl, inr, keep, length, none, not, opt_eq,
  some, str_eq, true, ℕ, ◌&&◌, ◌++◌, ◌+◌, ◌∷◌, ◌⊎◌,
}
use sentora.Auth.Sessions.{
  AuthState, RefreshToken, days, delete_family, find_active_session_by_family,
}
use sentora.Collections.{delete_many, find_one, update_one}

-- The claims that are read of a payload.
pub record Payload : Type 0 where
  pub type : Option String
  pub jti : Option String
  pub fam : Option String
  pub sub : Option String
  pub role : Option String

pub data TokenError : Type 0 where
  invalid wrong_type missing_claims reused : TokenError

-- What a new pair carries: the subject, its role and session, and the new refresh token's payload.
pub record TokenPair : Type 0 where
  pub username : String
  pub role : String
  pub session_id : Option String
  pub refresh_token : Payload

abbrev pub claims_of : RefreshToken → Payload
claims_of t = record {
  type = some "refresh";
  jti = some t.token_id;
  fam = some t.family_id;
  sub = some t.username;
  role = some t.role;
}

-- What `create_refresh_token` draws: the clock, read once here for both dates, a token id and a family
-- id.
pub record TokenDraw : Type 0 where
  pub now : ℕ
  pub token_id : String
  pub family : String

abbrev pub new_token : ℕ → TokenDraw → String → String → String → RefreshToken
new_token jwt_refresh_expire_days d username role family = record {
  token_id = d.token_id;
  family_id = family;
  username = username;
  role = role;
  expires_at = d.now + days jwt_refresh_expire_days;
  created_at = d.now;
  used = false;
}

-- `x or default`, and the truth of a claim.
abbrev pub or_new : Option String → String → String
or_new none d = d
or_new (some x) d = if str_eq x "" then d else x

-- A claim that has been found to be there.
abbrev pub claim_text : Option String → String
claim_text none = ""
claim_text (some x) = x

abbrev pub truthy : Option String → Bool
truthy none = false
truthy (some x) = not (str_eq x "")

unfoldable pub create_refresh_token :
    ℕ
    → TokenDraw
    → String
    → String
    → Option String
    → List RefreshToken
    → (Payload × String) × List RefreshToken
create_refresh_token jwt_refresh_expire_days d username role family_id tokens =
    let family = or_new family_id d.family in
    let t = new_token jwt_refresh_expire_days d username role family in
    ((claims_of t, family), tokens ++ (t ∷ []))

abbrev pub is_unused : String → RefreshToken → Bool
is_unused token_id t = str_eq t.token_id token_id && not t.used

-- The `find_one_and_update` of `rotate_refresh_token`: whether it found the token, and what it leaves.
unfoldable pub mark_used : String → List RefreshToken → Bool × List RefreshToken
mark_used token_id tokens = elim (find_one (is_unused token_id) tokens) [
  | none ↦ (false, tokens)
  | some t ↦ (true, update_one (is_unused token_id) (λ x. record x { used = true }) tokens)
]

-- The session of the new access token.
abbrev pub session_of : Option String → String → AuthState → Option String
session_of session_id family_id s = elim (truthy session_id) [
  | true ↦ session_id
  | false ↦ elim (find_active_session_by_family family_id s) [ none ↦ session_id | some x ↦ some x ]
]

-- `rotate_refresh_token` from the marking on.
abbrev pub exchange :
    ℕ
    → TokenDraw
    → Option String
    → String
    → String
    → String
    → String
    → AuthState
    → (TokenError ⊎ TokenPair) × AuthState
exchange jwt_refresh_expire_days d session_id token_id family_id username role s =
    let (found, tokens) = mark_used token_id s.refresh_tokens in
    let marked = record s { refresh_tokens = tokens } in
    let ((refresh, family), tokens') =
      create_refresh_token jwt_refresh_expire_days d username role (some family_id) tokens in
    if found
    then (
      inr (record {
        username = username;
        role = role;
        session_id = session_of session_id family_id marked;
        refresh_token = refresh;
      }),
      record s { refresh_tokens = tokens' },
    )
    else (inl reused, record s { refresh_tokens = delete_family family_id tokens })

-- `rotate_refresh_token`, for the decoding of jose.
unfoldable pub rotate_refresh_token :
    (String → Option Payload)
    → ℕ
    → TokenDraw
    → String
    → Option String
    → AuthState
    → (TokenError ⊎ TokenPair) × AuthState
rotate_refresh_token decode jwt_refresh_expire_days d token session_id s = elim (decode token) [
  | none ↦ (inl invalid, s)
  | some p ↦
      if not (opt_eq p.type (some "refresh"))
      then (inl wrong_type, s)
      else if not (truthy p.jti && truthy p.fam && truthy p.sub && truthy p.role)
      then (inl missing_claims, s)
      else exchange jwt_refresh_expire_days d session_id (claim_text p.jti) (claim_text p.fam)
          (claim_text p.sub) (claim_text p.role) s
]

unfoldable pub revoke_user_tokens : String → List RefreshToken → ℕ × List RefreshToken
revoke_user_tokens username tokens = (
  length (keep (λ t. str_eq t.username username) tokens),
  delete_many (λ t. str_eq t.username username) tokens,
)

-- `revoke_family`, for the decoding without the check of the expiry.
unfoldable pub revoke_family :
    (String → Option Payload) → String → List RefreshToken → ℕ × List RefreshToken
revoke_family decode token tokens = elim (decode token) [
  | none ↦ (0, tokens)
  | some p ↦
      let family_id = claim_text p.fam in
      if not (truthy p.fam) then (0, tokens) else (
        length (keep (λ t. str_eq t.family_id family_id) tokens),
        delete_many (λ t. str_eq t.family_id family_id) tokens,
      )
]
