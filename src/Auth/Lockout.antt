-- ===== src/Auth/Lockout.antt =====
-- How many passwords can be tried on an account (backend/domains/auth/service.py).
use Prim.Native.Nat.mul
use sentora.Prelude.{
  All, Bool, Bool-cases, List, String, [], ap, arith, false, if◌then◌else◌, inl, inr, leb, ltb,
  none, not, refl, some, str_eq, str_eq_iff, subst, suc, sym, true, ℕ, ◌*◌, ◌+◌, ◌-◌, ◌||◌, ◌∙◌,
  ◌∷◌, ◌≡◌, ◌≤◌,
}
use sentora.Auth.Login.{
  LockoutSettings, UserDoc, Users, authenticate_user, count_failure, is_locked, is_wrong,
}

-- An attempt, with its two readings of the clock.
pub record Guess : Type 0 where
  pub now : ℕ
  pub later : ℕ
  pub password : String

-- The readings are in order, from `clock` up to `end`.
abbrev pub Between : ℕ → ℕ → List Guess → Type 0
Between clock end [] = (clock ≤ end)
Between clock end (g ∷ gs) = (clock ≤ g.now) × (g.now ≤ g.later) × Between g.later end gs

suc-mul :
    (s lock next k bound : ℕ) → lock + s ≤ next → next + k * s ≤ bound → lock + suc k * s ≤ bound
suc-mul s lock next k bound le h =
    let product : suc k * s ≡ s + k * s = mul.suc k s in omega (arith, product, le, h)

module _ (c : LockoutSettings) (verify_password : String → String → Bool) (username : String) where
  abbrev seconds : ℕ
  seconds = c.account_lockout_duration_minutes * 60

  -- Whether the password of an attempt is compared with the account's.
  abbrev pub compared : Guess → Users → Bool
  compared g users = elim (users username) [ none ↦ false | some u ↦ not (is_locked g.now u) ]

  -- How many of the attempts, one after another, are compared.
  abbrev pub count_compared : List Guess → Users → ℕ
  count_compared [] users = 0
  count_compared (g ∷ gs) users =
      let rest =
        count_compared gs
          (authenticate_user c verify_password g.now g.later username g.password users).1 in
      if compared g users then suc rest else rest

  abbrev pub AllWrong : String → List Guess → Type 0
  AllWrong hashed gs =
      All (λ g. (str_eq hashed "" || not (verify_password g.password hashed)) ≡ true) gs

  -- After an attempt with a wrong password: the account as it was, or with one more failure.
  attempt-locked :
      (g : Guess) (users : Users) (u : UserDoc)
      → users username ≡ some u
      → is_locked g.now u ≡ true
      → authenticate_user c verify_password g.now g.later username g.password users ≡ (none, users)
  unfolding authenticate_user
  attempt-locked g users u e l = rw (authenticate_user, e, l) refl

  attempt-wrong :
      (g : Guess) (users : Users) (u : UserDoc)
      → users username ≡ some u
      → is_locked g.now u ≡ false
      → is_wrong verify_password g.password u ≡ true
      → (authenticate_user c verify_password g.now g.later username g.password users).1 username
        ≡ some (count_failure c g.later u)
  unfolding authenticate_user
  attempt-wrong g users u e l w =
      rw (authenticate_user, e, l, w, (str_eq_iff username username).1 refl) refl

  count_failure-over :
      (later : ℕ) (u : UserDoc)
      → c.account_lockout_threshold ≤ u.failed_login_attempts + 1
      → count_failure c later u ≡ record u {
        failed_login_attempts = u.failed_login_attempts + 1;
        locked_until = some (later + seconds);
      }
  count_failure-over later u le = ground (arith, le)

  count_failure-below :
      (later : ℕ) (u : UserDoc)
      → leb c.account_lockout_threshold (u.failed_login_attempts + 1) ≡ false
      → count_failure c later u ≡ record u { failed_login_attempts = u.failed_login_attempts + 1 }
  count_failure-below later u le = rw (count_failure, le) refl

  lock_over :
      (now lock : ℕ) (u : UserDoc)
      → u.locked_until ≡ some lock
      → is_locked now u ≡ false
      → lock ≤ now
  lock_over now lock u l n =
      let free : ltb now lock ≡ false = rw (is_locked, l) at n in ground (arith, free)

  locked_bound :
      (gs : List Guess) (clock end lock : ℕ) (hashed : String) (users : Users) (u : UserDoc)
      → users username ≡ some u
      → u.hashed_password ≡ hashed
      → AllWrong hashed gs
      → Between clock end gs
      → c.account_lockout_threshold ≤ u.failed_login_attempts
      → u.locked_until ≡ some lock
      → lock ≤ clock + seconds
      → lock + count_compared gs users * seconds ≤ end + seconds
  locked_bound [] clock end lock hashed users u e p w b f l le = omega (arith, b, le)
  locked_bound (g ∷ gs) clock end lock hashed users u e p w b f l le =
      elim (Bool-cases (is_locked g.now u)) [
        | inl y ↦
            let rest =
              locked_bound gs g.later end lock hashed users u e p w.1 b.2 f l
                (omega (arith, le, b.0, b.1)) in
            rw (attempt-locked g users u e y, compared, e, y) rest
        | inr n ↦
            let users' =
              (authenticate_user c verify_password g.now g.later username g.password users).1 in
            let wrong =
              subst (λ h. (str_eq h "" || not (verify_password g.password h)) ≡ true) (sym p) w.0 in
            let now_locked = count_failure-over g.later u (omega (arith, f)) in
            let e' = attempt-wrong g users u e n wrong ∙ ap some now_locked in
            let rest =
              locked_bound gs g.later end (g.later + seconds) hashed users' _ e' p w.1 b.2
                (omega (arith, f)) refl (omega arith) in
            let free : lock ≤ g.now = lock_over g.now lock u l n in
            rw (compared, e, n)
              (suc-mul seconds lock (g.later + seconds) (count_compared gs users') (end + seconds)
                (omega (arith, free, b.1)) rest)
      ]

  free_bound :
      (gs : List Guess) (clock end : ℕ) (hashed : String) (users : Users) (u : UserDoc)
      → users username ≡ some u
      → u.hashed_password ≡ hashed
      → AllWrong hashed gs
      → Between clock end gs
      → suc u.failed_login_attempts ≤ c.account_lockout_threshold
      → u.locked_until ≡ none
      → clock
          + ((u.failed_login_attempts + count_compared gs users) - c.account_lockout_threshold)
            * seconds
        ≤ end
  free_bound [] clock end hashed users u e p w b f l =
      let none_beyond : (u.failed_login_attempts + 0) - c.account_lockout_threshold ≡ 0 =
        omega (arith, f) in
      rw (none_beyond, mul.zero seconds) (omega (arith, b))
  free_bound (g ∷ gs) clock end hashed users u e p w b f l =
      let users' =
        (authenticate_user c verify_password g.now g.later username g.password users).1 in
      let wrong =
        subst (λ h. (str_eq h "" || not (verify_password g.password h)) ≡ true) (sym p) w.0 in
      let free : is_locked g.now u ≡ false = rw (is_locked, l) refl in
      let e' = attempt-wrong g users u e free wrong in
      rw (compared, e, free)
        (elim (Bool-cases (leb c.account_lockout_threshold (u.failed_login_attempts + 1))) [
          | inl last ↦
              let reached : c.account_lockout_threshold ≡ u.failed_login_attempts + 1 =
                ground (arith, last, f) in
              let now_locked = count_failure-over g.later u (omega (arith, reached)) in
              let rest =
                locked_bound gs g.later end (g.later + seconds) hashed users' _
                  (e' ∙ ap some now_locked) p w.1 b.2 (omega (arith, reached)) refl (omega arith) in
              let beyond : (u.failed_login_attempts + suc (count_compared gs users'))
                    - c.account_lockout_threshold
                  ≡ count_compared gs users' =
                omega (arith, reached) in
              rw beyond (omega (arith, rest, b.0, b.1))
          | inr more ↦
              let below : u.failed_login_attempts + 2 ≤ c.account_lockout_threshold =
                ground (arith, more) in
              let counted = count_failure-below g.later u more in
              let rest =
                free_bound gs g.later end hashed users' _ (e' ∙ ap some counted) p w.1 b.2
                  (omega (arith, below)) l in
              let same : (u.failed_login_attempts + suc (count_compared gs users'))
                    - c.account_lockout_threshold
                  ≡ ((u.failed_login_attempts + 1) + count_compared gs users')
                    - c.account_lockout_threshold =
                omega arith in
              rw same (omega (arith, rest, b.0, b.1))
        ])

  -- When no attempt has the account's password, over any attempts one after another from an account
  -- that is not locked and has no failures on, the attempts that are compared with the password beyond
  -- the threshold are at least one lockout apart: their number times the lockout's length is at most
  -- the time that the attempts take.
  pub guesses_bound :
      (gs : List Guess) (clock end : ℕ) (users : Users) (u : UserDoc)
      → users username ≡ some u
      → AllWrong u.hashed_password gs
      → Between clock end gs
      → u.failed_login_attempts ≡ 0
      → u.locked_until ≡ none
      → 1 ≤ c.account_lockout_threshold
      → (count_compared gs users - c.account_lockout_threshold)
          * (c.account_lockout_duration_minutes * 60)
        ≤ end - clock
  guesses_bound gs clock end users u e w b f l t =
      let bound =
        free_bound gs clock end u.hashed_password users u e refl w b (omega (arith, f, t)) l in
      let counted : count_compared gs users - c.account_lockout_threshold
          ≡ (u.failed_login_attempts + count_compared gs users) - c.account_lockout_threshold =
        omega (arith, f) in
      rw counted (omega (arith, bound))
