-- ===== src/Auth/Ending.antt =====
-- What is left when all sessions of a user are ended (backend/domains/auth/session_service.py).
use sentora.Prelude.{
  All, Bool, Bool-cases, List, Option, String, [], arith, false, inl, inr, keep, not, refl, str_eq,
  str_eq_iff, subst, sym, true, ℕ, ◌||◌, ◌∷◌, ◌≡◌,
}
use sentora.Auth.Expiry.{All-update_many}
use sentora.Auth.Sessions.{
  AuthState, Session, listed_ids, is_empty, is_session_revoked, revocable, revoke_all_user_sessions,
  revoked,
}
use sentora.Collections.Uniqueness.{All-map}
use sentora.Scope.{member, member-append}

-- Each document that the test selects has its id among these.
abbrev Covered : (Session → Bool) → List String → List Session → Type 0
Covered q is xs = All (λ x. (not (q x) || member x.id is) ≡ true) xs

Covered-listed_ids :
    (q : Session → Bool) (xs : List Session) → Covered q (listed_ids (keep q xs)) xs
Covered-listed_ids q [] = tt
Covered-listed_ids q (x ∷ xs) = elim (Bool-cases (q x)) [
  | inr n ↦
      let listed : listed_ids (keep q (x ∷ xs)) ≡ listed_ids (keep q xs) = rw n refl in
      subst (λ is. Covered q is (x ∷ xs)) (sym listed) (rw n refl, Covered-listed_ids q xs)
  | inl y ↦
      let listed : listed_ids (keep q (x ∷ xs)) ≡ x.id ∷ listed_ids (keep q xs) = rw y refl in
      let same : str_eq x.id x.id ≡ true = (str_eq_iff x.id x.id).1 refl in
      subst (λ is. Covered q is (x ∷ xs)) (sym listed)
        (rw (y, same) refl, All-map xs (λ z h. ground (arith, h)) (Covered-listed_ids q xs))
]

not_covered : (b : Bool) {c : Bool} → (not b || c) ≡ true → c ≡ false → b ≡ false
not_covered true h n = cc (h, n)
not_covered false h n = refl

empty_selects :
    (q : Session → Bool) (xs : List Session)
    → is_empty (keep q xs) ≡ true
    → All (λ x. q x ≡ false) xs
empty_selects q [] e = tt
empty_selects q (x ∷ xs) e = elim (Bool-cases (q x)) [
  | inl y ↦ let wrong : false ≡ true = rw y at e in cc wrong
  | inr n ↦ let rest : is_empty (keep q xs) ≡ true = rw n at e in (n, empty_selects q xs rest)
]

module _ (now : ℕ) (username reason : String) (exclude : Option String) (s : AuthState) where
  abbrev q : Session → Bool
  q = revocable username exclude

  ended : (x : Session) → q (revoked now reason x) ≡ false
  ended x = ground arith

  -- After all sessions of a user are ended, but one where one is excluded, no session of the user other
  -- than that one is active, and the worker that did it refuses the tokens of each that was.
  pub revoke_all_user_sessions-ends :
      let s' = (revoke_all_user_sessions now username reason exclude s).1 in
      All (λ x. revocable username exclude x ≡ false) s'.sessions
      × All
          (λ x. (not (revocable username exclude x) || is_session_revoked x.id s') ≡ true)
          s.sessions
  unfolding revoke_all_user_sessions is_session_revoked
  revoke_all_user_sessions-ends =
      let covered = Covered-listed_ids q s.sessions in
      elim (Bool-cases (is_empty (keep q s.sessions))) [
        | inl none_found ↦
            let unselected = empty_selects q s.sessions none_found in
            rw (revoke_all_user_sessions, none_found)
              (unselected, All-map s.sessions (λ x n. rw n refl) unselected)
        | inr some_found ↦
            rw (revoke_all_user_sessions, some_found)
              (
                All-update_many (λ x. q x ≡ false)
                    (λ x. member x.id (listed_ids (keep q s.sessions))) (revoked now reason)
                    s.sessions (λ x l. ended x)
                    (All-map s.sessions (λ x h n. not_covered (q x) h n) covered),
                All-map s.sessions
                    (λ x h.
                      rw (member-append x.id s.revoked_session_ids (listed_ids (keep q s.sessions)))
                        (ground (arith, h)))
                    covered,
              )
      ]
