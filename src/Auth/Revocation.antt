-- ===== src/Auth/Revocation.antt =====
-- What the revocation of sessions (backend/domains/auth/session_service.py and
-- session_revocation.py) does to the sessions, the tokens and the cache.
use sentora.Prelude.{
  All, Bool, Bool-cases, List, String, [], any, arith, false, inl, inr, keep, ltb, refl, some,
  str_eq, str_eq_iff, subst, sym, true, ℕ, ◌&&◌, ◌∙◌, ◌∷◌, ◌≡◌, ◌≢◌,
}
use sentora.Auth.Sessions.{
  AuthState, RefreshToken, Session, assign_cache, delete_family, listed_ids, is_live,
  is_session_revoked, is_session_valid, read_revoked, recently_revoked, revoke_session, revoked,
}
use sentora.Collections.{Distinct, delete_many, find_one, update_one}
use sentora.Collections.Keyed.{Selects, find_one-All, find_one-test}
use sentora.Scope.{member, member-append}

module _ {ℓ} {A : Type ℓ} where
  any-update_one :
      (p q : A → Bool) (f : A → A) (xs : List A)
      → ((x : A) → p x ≡ true → q (f x) ≡ q x)
      → any q (update_one p f xs) ≡ any q xs
  any-update_one p q f [] same = refl
  any-update_one p q f (x ∷ xs) same = elim (Bool-cases (p x)) [
    | inl y ↦ rw (y, same x y) refl
    | inr n ↦ rw (n, any-update_one p q f xs same) refl
  ]

  any-none : (q : A → Bool) (xs : List A) → All (λ x. q x ≡ false) xs → any q xs ≡ false
  any-none q [] h = refl
  any-none q (x ∷ xs) h = rw h.0 (any-none q xs h.1)

  module _ (key : A → String) where
    others-false :
        (h : String) (p q : A → Bool) (xs : List A)
        → Selects key h p
        → ((x : A) → p x ≡ false → q x ≡ false)
        → All (λ y. key y ≢ h) xs
        → All (λ x. q x ≡ false) xs
    others-false h p q [] s within a = tt
    others-false h p q (x ∷ xs) s within a = (
      elim (Bool-cases (p x)) [ inl y ↦ absurd (a.0 (s x y)) | inr n ↦ within x n ],
      others-false h p q xs s within a.1,
    )

    -- An update that ends the only document of a key ends what tests on that key find.
    any-ended :
        (h : String) (p q : A → Bool) (f : A → A) (xs : List A)
        → Distinct key xs
        → Selects key h p
        → ((x : A) → p x ≡ false → q x ≡ false)
        → ((x : A) → q (f x) ≡ false)
        → any q (update_one p f xs) ≡ false
    any-ended h p q f [] d s within ended = refl
    any-ended h p q f (x ∷ xs) d s within ended = elim (Bool-cases (p x)) [
      | inl y ↦
          let others = subst (λ z. All (λ y. key y ≢ z) xs) (s x y) d.0 in
          rw (y, ended x) (any-none q xs (others-false h p q xs s within others))
      | inr n ↦ rw (n, within x n) (any-ended h p q f xs d.1 s within ended)
    ]

abbrev pub session_id_of : Session → String
session_id_of x = x.id

is_live-Selects : (sid : String) → Selects session_id_of sid (is_live sid)
is_live-Selects sid x e = elim (Bool-cases (str_eq x.id sid)) [
  | inl y ↦ (str_eq_iff x.id sid).0 y
  | inr n ↦ let wrong : false ≡ true = rw n at e in cc wrong
]

live-unrevoked :
    (sid : String) (read : ℕ) (x : Session) → is_live sid x ≡ true → recently_revoked read x ≡ false
live-unrevoked sid read x l = ground (arith, l)

pub str_eq-false : (a b : String) → a ≢ b → str_eq a b ≡ false
str_eq-false a b n = elim (Bool-cases (str_eq a b)) [
  | inl y ↦ absurd (n ((str_eq_iff a b).0 y))
  | inr e ↦ e
]

-- No refresh token of a family is left once the family is deleted.
pub delete_family-keep :
    (family : String) (tokens : List RefreshToken)
    → str_eq family "" ≡ false
    → keep (λ t. str_eq t.family_id family) (delete_family family tokens) ≡ []
delete_family-keep family tokens named = rw named (gone tokens)
  where
    gone :
        (tokens : List RefreshToken)
        → keep
            (λ t. str_eq t.family_id family)
            (delete_many (λ t. str_eq t.family_id family) tokens)
          ≡ []
    gone [] = refl
    gone (t ∷ tokens) = elim (Bool-cases (str_eq t.family_id family)) [
      | inl y ↦ rw y (gone tokens)
      | inr n ↦ rw (n, n) (gone tokens)
    ]

absent-unread :
    (sid : String) (p : Session → Bool) (xs : List Session)
    → All (λ y. y.id ≢ sid) xs
    → member sid (listed_ids (keep p xs)) ≡ false
absent-unread sid p [] a = refl
absent-unread sid p (y ∷ xs) a =
    let rest = absent-unread sid p xs a.1 in
    elim (Bool-cases (p y)) [
      | inl yes_kept ↦ rw (yes_kept, str_eq-false sid y.id (λ e. a.0 (sym e))) rest
      | inr n ↦ rw n rest
    ]

-- A session that is active is not among those that the refresh of the cache reads.
live-unread :
    (sid : String) (read : ℕ) (xs : List Session) (x : Session)
    → Distinct session_id_of xs
    → find_one (is_live sid) xs ≡ some x
    → member sid (listed_ids (keep (recently_revoked read) xs)) ≡ false
live-unread sid read [] x d e = refl
live-unread sid read (y ∷ xs) x d e = elim (Bool-cases (is_live sid y)) [
  | inl found ↦
      let others = subst (λ z. All (λ w. w.id ≢ z) xs) (is_live-Selects sid y found) d.0 in
      rw (live-unrevoked sid read y found) (absent-unread sid (recently_revoked read) xs others)
  | inr n ↦
      let there : find_one (is_live sid) xs ≡ some x = rw n at e in
      let other : x.id ≢ y.id = find_one-All (λ w. w.id ≢ y.id) (is_live sid) xs x there d.0 in
      let named = is_live-Selects sid x (find_one-test (is_live sid) xs x there) in
      let rest = live-unread sid read xs x d.1 there in
      elim (Bool-cases (recently_revoked read y)) [
        | inl kept ↦ rw (kept, str_eq-false sid y.id (λ e. other (named ∙ e))) rest
        | inr skipped ↦ rw skipped rest
      ]
]

module _ (now : ℕ) (sid reason : String) (s : AuthState) (x : Session)
    (apart : Distinct session_id_of s.sessions)
    (live : find_one (is_live sid) s.sessions ≡ some x) where
  valid_other :
      (t : ℕ) (other : String)
      → str_eq sid other ≡ false
      → (y : Session) → is_live sid y ≡ true
      → (is_live other (revoked now reason y) && ltb t y.expires_at)
        ≡ (is_live other y && ltb t y.expires_at)
  valid_other t other different y l =
      let off : str_eq y.id other ≡ false =
        subst (λ z. str_eq z other ≡ false) (sym (is_live-Selects sid y l)) different in
      rw off refl

  -- Once an active session with a family of tokens is revoked, the worker that revoked it refuses its
  -- tokens, it is valid at no time, no refresh token of its family is left, and every other session is
  -- as valid as it was.
  pub revoke_session-ends :
      (t : ℕ) (other : String)
      → str_eq x.refresh_token_family "" ≡ false
      → str_eq sid other ≡ false
      → let s' = (revoke_session now sid reason s).1 in
        (is_session_revoked sid s' ≡ true)
        × (is_session_valid t sid s' ≡ false)
        × (keep (λ r. str_eq r.family_id x.refresh_token_family) s'.refresh_tokens ≡ [])
        × (is_session_valid t other s' ≡ is_session_valid t other s)
  unfolding revoke_session is_session_revoked is_session_valid
  revoke_session-ends t other named different =
      rw (revoke_session, live)
        (
          member-append sid s.revoked_session_ids (sid ∷ [])
              ∙ rw ((str_eq_iff sid sid).1 refl) (ground arith),
          any-ended session_id_of sid (is_live sid) (λ y. is_live sid y && ltb t y.expires_at)
              (revoked now reason) s.sessions apart (is_live-Selects sid) (λ y n. rw n refl)
              (λ y. ground arith),
          delete_family-keep x.refresh_token_family s.refresh_tokens named,
          any-update_one (is_live sid) (λ y. is_live other y && ltb t y.expires_at)
              (revoked now reason) s.sessions (valid_other t other different),
        )

  -- When a session is revoked between the read and the assignment of the cache's refresh, the worker
  -- that revoked it does not refuse its tokens afterwards, although the session is valid at no time.
  pub revoke_session-lost :
      (read t : ℕ)
      → let s' = assign_cache (read_revoked read s) (revoke_session now sid reason s).1 in
        (is_session_revoked sid s' ≡ false) × (is_session_valid t sid s' ≡ false)
  unfolding assign_cache read_revoked is_session_revoked is_session_valid revoke_session
  revoke_session-lost read t =
      rw (revoke_session, live)
        (
          live-unread sid read s.sessions x apart live,
          any-ended session_id_of sid (is_live sid) (λ y. is_live sid y && ltb t y.expires_at)
              (revoked now reason) s.sessions apart (is_live-Selects sid) (λ y n. rw n refl)
              (λ y. ground arith),
        )
