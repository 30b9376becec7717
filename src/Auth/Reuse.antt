-- ===== src/Auth/Reuse.antt =====
-- A refresh token is exchanged once (backend/domains/auth/service.py): one request after another, and
-- in any interleaving of the requests' calls of the database.
use sentora.Prelude.{
  Bool, Bool-cases, List, Option, Option-cases, String, [], arith, false, inl, inr, keep, none,
  refl, some, str_eq, str_eq_iff, sym, true, ℕ, ◌∙◌, ◌∷◌, ◌≡◌,
}
use sentora.Auth.Revocation.{delete_family-keep}
use sentora.Auth.Sessions.{AuthState, RefreshToken, delete_family}
use sentora.Auth.Tokens.{
  Payload, TokenDraw, create_refresh_token, exchange, is_unused, mark_used, reused,
  rotate_refresh_token,
}
use sentora.Collections.{Distinct, delete_many, find_one, update_one}
use sentora.Collections.Keyed.{Selects, find_one-append, find_one-test, find_one-update_one}

abbrev pub token_id_of : RefreshToken → String
token_id_of t = t.token_id

pub is_unused-Selects : (tid : String) → Selects token_id_of tid (is_unused tid)
is_unused-Selects tid t e = elim (Bool-cases (str_eq t.token_id tid)) [
  | inl y ↦ (str_eq_iff t.token_id tid).0 y
  | inr n ↦ let wrong : false ≡ true = rw n at e in cc wrong
]

abbrev pub mark : RefreshToken → RefreshToken
mark t = record t { used = true }

-- An id of which no unused token is left.
abbrev pub Spent : String → List RefreshToken → Type 0
Spent tid tokens = find_one (is_unused tid) tokens ≡ none

pub Spent-delete :
    (tid : String) (q : RefreshToken → Bool) (tokens : List RefreshToken)
    → Spent tid tokens
    → Spent tid (delete_many q tokens)
Spent-delete tid q [] e = refl
Spent-delete tid q (t ∷ tokens) e = elim (Bool-cases (is_unused tid t)) [
  | inl y ↦ let wrong : some t ≡ none = rw y at e in cc wrong
  | inr n ↦
      let there : Spent tid tokens = rw n at e in
      elim (Bool-cases (q t)) [
        | inl gone ↦ rw gone (Spent-delete tid q tokens there)
        | inr stays ↦ rw (stays, n) (Spent-delete tid q tokens there)
      ]
]

pub Spent-family :
    (tid family : String) (tokens : List RefreshToken)
    → Spent tid tokens
    → Spent tid (delete_family family tokens)
Spent-family tid family tokens e = elim (Bool-cases (str_eq family "")) [
  | inl y ↦ rw y e
  | inr n ↦ rw n (Spent-delete tid (λ t. str_eq t.family_id family) tokens e)
]

-- Marking leaves no unused token of the id.
pub marked-Spent :
    (tid : String) (tokens : List RefreshToken) (t : RefreshToken)
    → Distinct token_id_of tokens
    → find_one (is_unused tid) tokens ≡ some t
    → Spent tid (update_one (is_unused tid) mark tokens)
marked-Spent tid tokens t d e =
    let same = is_unused-Selects tid t (find_one-test (is_unused tid) tokens t e) in
    find_one-update_one token_id_of (is_unused tid) (is_unused tid) mark tokens t d (λ x. refl) e
      (λ y u. is_unused-Selects tid y u ∙ sym same)
    ∙ ground arith

mark_used-Spent :
    (tid : String) (tokens : List RefreshToken)
    → Distinct token_id_of tokens
    → Spent tid (mark_used tid tokens).1
unfolding mark_used
mark_used-Spent tid tokens d = elim (Option-cases (find_one (is_unused tid) tokens)) [
  | inl none_left ↦ rw (mark_used, none_left) none_left
  | inr (t, e) ↦ rw (mark_used, e) (marked-Spent tid tokens t d e)
]

-- An attempt with a spent id is a reuse, which deletes the family.
pub mark_used-none :
    (tid : String) (tokens : List RefreshToken)
    → Spent tid tokens
    → mark_used tid tokens ≡ (false, tokens)
unfolding mark_used
mark_used-none tid tokens e = rw (mark_used, e) refl

pub create-Spent :
    (n : ℕ) (d : TokenDraw) (username role tid : String) (family : Option String)
    (tokens : List RefreshToken)
    → str_eq d.token_id tid ≡ false
    → Spent tid tokens
    → Spent tid (create_refresh_token n d username role family tokens).1
unfolding create_refresh_token
create-Spent n d username role tid family tokens other e =
    find_one-append (is_unused tid) tokens _ ∙ rw (e, other) refl

abbrev pub refresh_payload : String → String → String → String → Payload
refresh_payload tid fam username role = record {
  type = some "refresh";
  jti = some tid;
  fam = some fam;
  sub = some username;
  role = some role;
}

module _ (decode : String → Option Payload) (n : ℕ) (token tid fam username role : String)
    (decoded : decode token ≡ some (refresh_payload tid fam username role))
    (named : (str_eq tid "" ≡ false)
      × (str_eq fam "" ≡ false)
      × (str_eq username "" ≡ false)
      × (str_eq role "" ≡ false)) where
  rotate-exchange :
      (d : TokenDraw) (session_id : Option String) (s : AuthState)
      → rotate_refresh_token decode n d token session_id s
        ≡ exchange n d session_id tid fam username role s
  unfolding rotate_refresh_token
  rotate-exchange d session_id s =
      rw (rotate_refresh_token, decoded, named.0, named.1, named.2, named.3) refl

  exchange-Spent :
      (d : TokenDraw) (session_id : Option String) (s : AuthState)
      → Distinct token_id_of s.refresh_tokens
      → str_eq d.token_id tid ≡ false
      → Spent tid (exchange n d session_id tid fam username role s).1.refresh_tokens
  exchange-Spent d session_id s apart other =
      let spent = mark_used-Spent tid s.refresh_tokens apart in
      let tokens = (mark_used tid s.refresh_tokens).1 in
      elim (Bool-cases (mark_used tid s.refresh_tokens).0) [
        | inl y ↦ rw y (create-Spent n d username role tid (some fam) tokens other spent)
        | inr m ↦ rw m (Spent-family tid fam tokens spent)
      ]

  exchange-reused :
      (d : TokenDraw) (session_id : Option String) (s : AuthState)
      → Spent tid s.refresh_tokens
      → exchange n d session_id tid fam username role s
        ≡ (inl reused, record s { refresh_tokens = delete_family fam s.refresh_tokens })
  exchange-reused d session_id s e = rw (mark_used-none tid s.refresh_tokens e) refl

  -- Whatever the first call of `rotate_refresh_token` with a token does, a second call with the same
  -- token raises the error of a reuse and leaves no refresh token of its family.
  pub rotate_refresh_token-twice :
      (d d' : TokenDraw) (session_id : Option String) (s : AuthState)
      → Distinct token_id_of s.refresh_tokens
      → str_eq d.token_id tid ≡ false
      → let s1 = (rotate_refresh_token decode n d token session_id s).1 in
        let (answer, s2) = rotate_refresh_token decode n d' token session_id s1 in
        (answer ≡ inl reused) × (keep (λ t. str_eq t.family_id fam) s2.refresh_tokens ≡ [])
  rotate_refresh_token-twice d d' session_id s apart other =
      let s1 = (exchange n d session_id tid fam username role s).1 in
      let spent = exchange-Spent d session_id s apart other in
      rw
        (
          rotate-exchange d session_id s,
          rotate-exchange d' session_id s1,
          exchange-reused d' session_id s1 spent,
        )
        (refl, delete_family-keep fam s1.refresh_tokens named.1)
