-- ===== src/Auth/Expiry.antt =====
-- What the clean-up of sessions leaves (backend/domains/auth/session_service.py).
use sentora.Prelude.{
  All, All-keep, Bool, Bool-cases, List, String, [], any, arith, false, inl, inr, ltb, not, refl,
  true, ℕ, ◌&&◌, ◌∙◌, ◌∷◌, ◌≡◌, ◌≤◌,
}
use sentora.Auth.Sessions.{
  AuthState, Session, cleanup_expired_sessions, is_live, is_old, is_session_valid, revoked,
}
use sentora.Collections.{delete_many, update_many}

module _ {ℓ} {A : Type ℓ} where
  any-delete_many :
      (q old : A → Bool) (xs : List A)
      → ((x : A) → old x ≡ true → q x ≡ false)
      → any q (delete_many old xs) ≡ any q xs
  any-delete_many q old [] h = refl
  any-delete_many q old (x ∷ xs) h = elim (Bool-cases (old x)) [
    | inl y ↦ rw (y, h x y) (any-delete_many q old xs h)
    | inr n ↦ rw (n, any-delete_many q old xs h) refl
  ]

  any-update_many :
      (q p : A → Bool) (f : A → A) (xs : List A)
      → ((x : A) → p x ≡ true → q (f x) ≡ q x)
      → any q (update_many p f xs) ≡ any q xs
  any-update_many q p f [] h = refl
  any-update_many q p f (x ∷ xs) h = elim (Bool-cases (p x)) [
    | inl y ↦ rw (y, h x y, any-update_many q p f xs h) refl
    | inr n ↦ rw (n, any-update_many q p f xs h) refl
  ]

  pub All-always {κ} : (P : A → Type κ) (xs : List A) → ((x : A) → P x) → All P xs
  All-always P [] h = tt
  All-always P (x ∷ xs) h = (h x, All-always P xs h)

  pub All-update_many {κ} :
      (P : A → Type κ) (p : A → Bool) (f : A → A) (xs : List A)
      → ((x : A) → p x ≡ true → P (f x))
      → All (λ x. p x ≡ false → P x) xs
      → All P (update_many p f xs)
  All-update_many P p f [] h g = tt
  All-update_many P p f (x ∷ xs) h g = elim (Bool-cases (p x)) [
    | inl y ↦ rw y (h x y, All-update_many P p f xs h g.1)
    | inr n ↦ rw n (g.0 n, All-update_many P p f xs h g.1)
  ]

module _ (now : ℕ) where
  -- A session of the id that is valid at a time.
  abbrev valid : ℕ → String → Session → Bool
  valid t sid x = is_live sid x && ltb t x.expires_at

  abbrev stale : Session → Bool
  stale x = x.is_active && ltb x.expires_at now

  old_invalid : (t : ℕ) (sid : String) (x : Session) → is_old now x ≡ true → valid t sid x ≡ false
  old_invalid t sid x o = elim (Bool-cases x.is_active) [
    | inl y ↦ let wrong : false ≡ true = rw y at o in cc wrong
    | inr n ↦ ground (arith, n)
  ]

  stale_invalid :
      (t : ℕ) (sid : String) (x : Session)
      → now ≤ t
      → stale x ≡ true
      → valid t sid (revoked now "expired" x) ≡ valid t sid x
  stale_invalid t sid x le e = ground (arith, e)

  -- The clean-up is not seen by the validity of any session at any later time, and it leaves no active
  -- session that has expired.
  pub cleanup_expired_sessions-valid :
      (t : ℕ) (sid : String) (s : AuthState)
      → now ≤ t
      → (is_session_valid t sid (cleanup_expired_sessions now s).1 ≡ is_session_valid t sid s)
        × All
            (λ x. (x.is_active && ltb x.expires_at now) ≡ false)
            (cleanup_expired_sessions now s).1.sessions
  unfolding cleanup_expired_sessions is_session_valid
  cleanup_expired_sessions-valid t sid s le =
      let marked = update_many stale (revoked now "expired") s.sessions in
      (
        any-delete_many (valid t sid) (is_old now) marked (old_invalid t sid)
            ∙ any-update_many (valid t sid) stale (revoked now "expired") s.sessions
                (λ x e. stale_invalid t sid x le e),
        All-keep (λ x. stale x ≡ false) (λ x. not (is_old now x)) marked
            (All-update_many (λ x. stale x ≡ false) stale (revoked now "expired") s.sessions
              (λ x e. refl)
              (All-always (λ x. stale x ≡ false → stale x ≡ false) s.sessions (λ x e. e))),
      )
