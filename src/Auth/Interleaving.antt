-- ===== src/Auth/Interleaving.antt =====
-- The calls on `refresh_tokens` of concurrent requests (backend/domains/auth/service.py and
-- session_service.py), in any order: an exchange is an attempt to mark the token, and later an
-- insertion or, where the mark failed, the deletion of the family.
use sentora.Prelude.{
  All, All-keep, All-snoc, Bool, Bool-cases, List, Option, Option-cases, String, [], arith, false,
  if◌then◌else◌, inl, inr, none, not, refl, some, str_eq, str_eq_iff, subst, sym, true, ℕ, ◌∙◌, ◌∷◌,
  ◌≡◌, ◌≢◌,
}
use sentora.Auth.Reuse.{
  Spent, Spent-delete, create-Spent, is_unused-Selects, mark, mark_used-none, marked-Spent,
  token_id_of,
}
use sentora.Auth.Revocation.{str_eq-false}
use sentora.Auth.Sessions.{RefreshToken}
use sentora.Auth.Tokens.{TokenDraw, create_refresh_token, is_unused, mark_used, new_token, or_new}
use sentora.Collections.{Distinct, delete_many, find_one, update_one}
use sentora.Collections.Keyed.{find_one-All, find_one-test}
use sentora.Collections.Uniqueness.{
  All-map, All-updated, Distinct-append_last, Distinct-keep, Distinct-update_one,
}
use sentora.Scope.{member}

-- The collection, the ids whose mark succeeded, the last first, and those that were drawn.
pub record Tokens : Type 0 where
  pub tokens : List RefreshToken
  pub exchanged : List String
  pub drawn : List String

abbrev pub no_tokens : Tokens
no_tokens = record { tokens = []; exchanged = []; drawn = [] }

-- `find_one_and_update` of `rotate_refresh_token`, by some request.
abbrev pub attempt : String → Tokens → Tokens
attempt tid s =
    let (found, tokens') = mark_used tid s.tokens in
    record s { tokens = tokens'; exchanged = if found then tid ∷ s.exchanged else s.exchanged }

-- `create_refresh_token`, of a login or of a rotation.
abbrev pub insert : ℕ → TokenDraw → String → String → Option String → Tokens → Tokens
insert n d username role family s = record s {
  tokens = (create_refresh_token n d username role family s.tokens).1;
  drawn = d.token_id ∷ s.drawn;
}

-- One call of the database. The ids that are drawn are new; a deletion is that of a family after a
-- reuse, of a revocation, a logout, or the TTL index.
pub data Step : Tokens → Tokens → Type 0 where
  attempted : (tid : String) (s : Tokens) → Step s (attempt tid s)
  inserted :
      (n : ℕ) (d : TokenDraw) (username role : String) (family : Option String) (s : Tokens)
      → All (λ i. i ≢ d.token_id) s.drawn
      → Step s (insert n d username role family s)
  deleted :
      (p : RefreshToken → Bool) (s : Tokens) → Step s (record s { tokens = delete_many p s.tokens })

pub data Run : Tokens → Tokens → Type 0 where
  start : (s : Tokens) → Run s s
  then_step : (r s t : Tokens) → Run r s → Step s t → Run r t

record Once (s : Tokens) : Type 0 where
  apart : Distinct token_id_of s.tokens
  known : All (λ t. member t.token_id s.drawn ≡ true) s.tokens
  spent : All (λ i. Spent i s.tokens × (member i s.drawn ≡ true)) s.exchanged
  once : Distinct (λ i. i) s.exchanged

member_apart :
    (i k : String) (is : List String)
    → All (λ j. j ≢ k) is
    → member i is ≡ true
    → str_eq k i ≡ false
member_apart i k [] a m = cc m
member_apart i k (j ∷ is) a m = elim (Bool-cases (str_eq i j)) [
  | inl y ↦ let same = (str_eq_iff i j).0 y in str_eq-false k i (λ e. a.0 (sym same ∙ sym e))
  | inr n ↦ let there : member i is ≡ true = rw n at m in member_apart i k is a.1 there
]

member-cons : (i k : String) (is : List String) → member i is ≡ true → member i (k ∷ is) ≡ true
member-cons i k is m = ground (arith, m)

Spent-mark :
    (i tid : String) (tokens : List RefreshToken)
    → Spent i tokens
    → Spent i (update_one (is_unused tid) mark tokens)
Spent-mark i tid [] e = refl
Spent-mark i tid (t ∷ tokens) e = elim (Bool-cases (is_unused i t)) [
  | inl y ↦ let wrong : some t ≡ none = rw y at e in cc wrong
  | inr n ↦
      let there : Spent i tokens = rw n at e in
      elim (Bool-cases (is_unused tid t)) [
        | inl y ↦ let off : is_unused i (mark t) ≡ false = ground arith in rw (y, off) there
        | inr m ↦ rw (m, n) (Spent-mark i tid tokens there)
      ]
]

-- An attempt whose mark succeeds.
attempt-marked :
    (tid : String) (s : Tokens) (t : RefreshToken)
    → find_one (is_unused tid) s.tokens ≡ some t
    → attempt tid s ≡ record s {
      tokens = update_one (is_unused tid) mark s.tokens;
      exchanged = tid ∷ s.exchanged;
    }
unfolding mark_used
attempt-marked tid s t e = rw (attempt, mark_used, e) refl

attempt-Once : (tid : String) (s : Tokens) → Once s → Once (attempt tid s)
attempt-Once tid s h = elim (Option-cases (find_one (is_unused tid) s.tokens)) [
  | inl e ↦ let still = mark_used-none tid s.tokens e in rw still h
  | inr (t, e) ↦
      let same = is_unused-Selects tid t (find_one-test (is_unused tid) s.tokens t e) in
      let known =
        find_one-All (λ x. member x.token_id s.drawn ≡ true) (is_unused tid) s.tokens t e h.known in
      rw (attempt-marked tid s t e) (record {
        apart = Distinct-update_one token_id_of (is_unused tid) mark s.tokens (λ x. refl) h.apart;
        known =
            All-updated (λ x. member x.token_id s.drawn ≡ true) (is_unused tid) mark s.tokens
              (λ x m. m) h.known;
        spent = (
          (marked-Spent tid s.tokens t h.apart e, subst (λ i. member i s.drawn ≡ true) same known),
          All-map s.exchanged (λ i p. (Spent-mark i tid s.tokens p.0, p.1)) h.spent,
        );
        once = (
          All-map s.exchanged (λ i p j. cc (subst (λ k. Spent k s.tokens) j p.0, e)) h.spent,
          h.once,
        );
      })
]

insert-Once :
    (n : ℕ) (d : TokenDraw) (username role : String) (family : Option String) (s : Tokens)
    → All (λ i. i ≢ d.token_id) s.drawn
    → Once s
    → Once (insert n d username role family s)
unfolding create_refresh_token
insert-Once n d username role family s fresh h =
    let new = new_token n d username role (or_new family d.family) in
    record {
      apart =
          Distinct-append_last token_id_of s.tokens new
            (All-map s.tokens
              (λ t m e. cc (
                member_apart t.token_id d.token_id s.drawn fresh m,
                (str_eq_iff d.token_id t.token_id).1 (sym e),
              ))
              h.known)
            h.apart;
      known =
          All-snoc (λ t. member t.token_id (d.token_id ∷ s.drawn) ≡ true) new s.tokens
            (All-map s.tokens (λ t m. member-cons t.token_id d.token_id s.drawn m) h.known)
            (rw ((str_eq_iff d.token_id d.token_id).1 refl) refl);
      spent =
          All-map s.exchanged
            (λ i p. (
              create-Spent n d username role i family s.tokens
                  (member_apart i d.token_id s.drawn fresh p.1) p.0,
              member-cons i d.token_id s.drawn p.1,
            ))
            h.spent;
      once = h.once;
    }

delete-Once :
    (p : RefreshToken → Bool) (s : Tokens)
    → Once s
    → Once (record s { tokens = delete_many p s.tokens })
delete-Once p s h = record {
  apart = Distinct-keep token_id_of (λ t. not (p t)) s.tokens h.apart;
  known = All-keep (λ t. member t.token_id s.drawn ≡ true) (λ t. not (p t)) s.tokens h.known;
  spent = All-map s.exchanged (λ i q. (Spent-delete i p s.tokens q.0, q.1)) h.spent;
  once = h.once;
}

Step-Once : (s t : Tokens) → Step s t → Once s → Once t
Step-Once s t (attempted tid _) h = attempt-Once tid s h
Step-Once s t (inserted n d username role family _ fresh) h =
    insert-Once n d username role family s fresh h
Step-Once s t (deleted p _) h = delete-Once p s h

Run-Once : (r s : Tokens) → Run r s → Once r → Once s
Run-Once r s (start _) h = h
Run-Once r s (then_step _ m _ before last) h = Step-Once m s last (Run-Once r m before h)

-- Over any interleaving of exchanges, logins, rotations and deletions from an empty collection on, in
-- which no drawn id repeats, the mark of every token succeeds at most once, and no id whose mark
-- succeeded has an unused token again.
pub exchanged_once :
    (s : Tokens)
    → Run no_tokens s
    → Distinct (λ i. i) s.exchanged × All (λ i. find_one (is_unused i) s.tokens ≡ none) s.exchanged
exchanged_once s r =
    let h = Run-Once no_tokens s r (record { apart = tt; known = tt; spent = tt; once = tt }) in
    (h.once, All-map s.exchanged (λ i p. p.0) h.spent)
