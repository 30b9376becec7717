-- ===== src/Auth/Survival.antt =====
-- A family of refresh tokens that outlives the detection of a reuse (backend/domains/auth/service.py).
use sentora.Prelude.{
  All, List, String, [], false, keep, refl, some, str_eq, str_eq_iff, true, ℕ, ◌∙◌, ◌≡◌, ◌≢◌,
}
use sentora.Auth.Reuse.{
  Spent, Spent-family, is_unused-Selects, mark, mark_used-none, marked-Spent, token_id_of,
}
use sentora.Auth.Revocation.{delete_family-keep}
use sentora.Auth.Sessions.{RefreshToken, delete_family}
use sentora.Auth.Tokens.{TokenDraw, create_refresh_token, is_unused, mark_used, new_token}
use sentora.Collections.{Distinct, find_one, update_one}
use sentora.Collections.Keyed.{find_one-append, find_one-others}
use sentora.Collections.Uniqueness.{All-updated}

mark_used-some :
    (tid : String) (tokens : List RefreshToken) (t : RefreshToken)
    → find_one (is_unused tid) tokens ≡ some t
    → mark_used tid tokens ≡ (true, update_one (is_unused tid) mark tokens)
unfolding mark_used
mark_used-some tid tokens t e = rw (mark_used, e) refl

create-found :
    (n : ℕ) (d : TokenDraw) (username role family : String) (tokens : List RefreshToken)
    → str_eq family "" ≡ false
    → Spent d.token_id tokens
    → find_one
        (is_unused d.token_id)
        (create_refresh_token n d username role (some family) tokens).1
      ≡ some (new_token n d username role family)
unfolding create_refresh_token
create-found n d username role family tokens named e =
    rw (create_refresh_token, named)
      (find_one-append (is_unused d.token_id) tokens (new_token n d username role family)
        ∙ rw (e, (str_eq_iff d.token_id d.token_id).1 refl) refl)

-- When a second request with a token finds it used between the mark of the first and its insertion,
-- the family that the second deletes has a token again once the first inserts it, and that one can be
-- exchanged.
pub family_survives :
    (n : ℕ) (d : TokenDraw) (tid : String) (t : RefreshToken) (tokens : List RefreshToken)
    → Distinct token_id_of tokens
    → All (λ x. x.token_id ≢ d.token_id) tokens
    → find_one (is_unused tid) tokens ≡ some t
    → str_eq t.family_id "" ≡ false
    → let (first, marked) = mark_used tid tokens in
      let (second, same) = mark_used tid marked in
      let after =
        (create_refresh_token n d t.username t.role
          (some t.family_id)
          (delete_family t.family_id same)).1 in
      (first ≡ true)
      × (second ≡ false)
      × (keep (λ x. str_eq x.family_id t.family_id) (delete_family t.family_id same) ≡ [])
      × (find_one (is_unused d.token_id) after ≡ some (new_token n d t.username t.role t.family_id))
family_survives n d tid t tokens apart fresh e named =
    let marked = update_one (is_unused tid) mark tokens in
    let first = mark_used-some tid tokens t e in
    let second = mark_used-none tid marked (marked-Spent tid tokens t apart e) in
    let unknown =
      All-updated (λ x. x.token_id ≢ d.token_id) (is_unused tid) mark tokens (λ x n. n) fresh in
    let new_unknown =
      find_one-others token_id_of d.token_id (is_unused d.token_id) marked
        (is_unused-Selects d.token_id) unknown in
    let absent = Spent-family d.token_id t.family_id marked new_unknown in
    rw (first, second)
      (
        refl,
        refl,
        delete_family-keep t.family_id marked named,
        create-found n d t.username t.role t.family_id (delete_family t.family_id marked) named
            absent,
      )
