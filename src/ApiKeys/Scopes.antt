-- ===== src/ApiKeys/Scopes.antt =====
-- What the scopes of a key grant (`expand_scopes` of backend/domains/api_keys/entities.py).
use sentora.Prelude.{
  Bool, Bool-cases, List, String, [], ap, arith, false, if◌then◌else◌, inl, inr, not, refl, str_eq,
  str_eq_iff, subst, sym, true, ◌&&◌, ◌++◌, ◌||◌, ◌∙◌, ◌∷◌, ◌≡◌,
}
use sentora.ApiKeys.Entities.{expand_scopes, read_scopes, write_scopes}
use sentora.Scope.{member, member-append}

-- What is granted, by which groups are named (`read`, `write`), which of them hold the scope
-- (`readable`, `writable`), and whether the scope is named and a group.
abbrev grant : Bool → Bool → Bool → Bool → Bool → Bool → Bool
grant named group read write readable writable =
    (named && not group) || (read && readable) || (write && (readable || writable))

str_eq-sym : (a b : String) → str_eq a b ≡ str_eq b a
str_eq-sym a b = ground (arith, str_eq_iff a b, str_eq_iff b a)

-- A scope that a list names itself, or grants as one of a group that it names.
abbrev pub grants : String → List String → Bool
grants s scopes =
    grant (member s scopes) (str_eq s "read:all" || str_eq s "write:all") (member "read:all" scopes)
      (member "write:all" scopes) (member s read_scopes) (member s write_scopes)

grant-write :
    (n p q r w a b : Bool)
    → ((a || b) || grant n (p || q) r w a b) ≡ grant (if q then true else n) (p || q) r true a b
grant-write n p true r w true b = ground arith
grant-write n p true r w false b = ground arith
grant-write n p false r w true b = ground arith
grant-write n p false r w false b = ground arith

grant-read :
    (n p q r w a b : Bool)
    → (a || grant n (p || q) r w a b) ≡ grant (if p then true else n) (p || q) true w a b
grant-read n true q r w a b = ground arith
grant-read n false q r w true b = ground arith
grant-read n false q r w false b = ground arith

grant-scope :
    (t n p q r w a b : Bool)
    → (t ≡ true → (p || q) ≡ false)
    → (if t then true else grant n (p || q) r w a b)
      ≡ grant (if t then true else n) (p || q) r w a b
grant-scope true n p q r w a b h = rw (h refl) refl
grant-scope false n p q r w a b h = refl

module _ (s : String) (xs : List String) (rest : member s (expand_scopes xs) ≡ grants s xs) where
  expand-write : member s (expand_scopes ("write:all" ∷ xs)) ≡ grants s ("write:all" ∷ xs)
  unfolding expand_scopes
  expand-write =
      member-append s (read_scopes ++ write_scopes) (expand_scopes xs)
      ∙ ap (λ b. b || member s (expand_scopes xs)) (member-append s read_scopes write_scopes)
      ∙ ap (λ b. (member s read_scopes || member s write_scopes) || b) rest
      ∙ grant-write (member s xs) (str_eq s "read:all") (str_eq s "write:all")
          (member "read:all" xs) (member "write:all" xs) (member s read_scopes)
          (member s write_scopes)

  expand-read : member s (expand_scopes ("read:all" ∷ xs)) ≡ grants s ("read:all" ∷ xs)
  unfolding expand_scopes
  expand-read =
      member-append s read_scopes (expand_scopes xs)
      ∙ ap (λ b. member s read_scopes || b) rest
      ∙ grant-read (member s xs) (str_eq s "read:all") (str_eq s "write:all") (member "read:all" xs)
          (member "write:all" xs) (member s read_scopes) (member s write_scopes)

  expand-scope :
      (x : String)
      → str_eq x "write:all" ≡ false
      → str_eq x "read:all" ≡ false
      → member s (expand_scopes (x ∷ xs)) ≡ grants s (x ∷ xs)
  unfolding expand_scopes
  expand-scope x e f =
      let p : Bool = str_eq s "read:all" in
      let q : Bool = str_eq s "write:all" in
      let no_group : str_eq s x ≡ true → (p || q) ≡ false = λ h.
        subst (λ t. (str_eq t "read:all" || str_eq t "write:all") ≡ false)
          (sym ((str_eq_iff s x).0 h)) (rw (e, f) refl) in
      rw (str_eq-sym "read:all" x, str_eq-sym "write:all" x, e, f, rest)
        (grant-scope (str_eq s x) (member s xs) p q (member "read:all" xs) (member "write:all" xs)
          (member s read_scopes) (member s write_scopes) no_group)

-- The expansion of a list of scopes holds exactly the scopes that the list names, other than the two
-- groups, those to read where it names `read:all` or `write:all`, and those to write where it names
-- `write:all`.
pub expand_scopes-grants :
    (s : String) (scopes : List String) → member s (expand_scopes scopes) ≡ grants s scopes
unfolding expand_scopes
expand_scopes-grants s [] = refl
expand_scopes-grants s (x ∷ xs) =
    let rest = expand_scopes-grants s xs in
    let P : String → Type 0 = λ y. member s (expand_scopes (y ∷ xs)) ≡ grants s (y ∷ xs) in
    elim (Bool-cases (str_eq x "write:all")) [
      | inl e ↦ subst P (sym ((str_eq_iff x "write:all").0 e)) (expand-write s xs rest)
      | inr e ↦ elim (Bool-cases (str_eq x "read:all")) [
        | inl f ↦ subst P (sym ((str_eq_iff x "read:all").0 f)) (expand-read s xs rest)
        | inr f ↦ expand-scope s xs rest x e f
      ]
    ]
