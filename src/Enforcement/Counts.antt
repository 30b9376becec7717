-- ===== src/Enforcement/Counts.antt =====
-- What the engine counts (backend/domains/enforcement/engine.py): agents by their ids.
use sentora.Prelude.{
  All, All-keep, Bool, List, String, [], any, arith, false, if◌then◌else◌, keep, length, map, not,
  refl, str_eq, str_eq_iff, true, ◌++◌, ◌+◌, ◌∷◌, ◌≡◌, ◌≢◌,
}
use sentora.Enforcement.Entities.{EnforcementViolation}
use sentora.Enforcement.Violations.{collect, distinct}
use sentora.Scope.{Agent, member}

abbrev pub is_nil {ℓ} : {A : Type ℓ} → List A → Bool
is_nil [] = true
is_nil (x ∷ xs) = false

-- No two agents have one id. The collection does not enforce it: its key is the source with the id.
abbrev pub Unique : List Agent → Type 0
Unique [] = Unit
Unique (a ∷ as') = All (λ b. a.source_id ≢ b.source_id) as' × Unique as'

pub Unique-keep : (p : Agent → Bool) (as' : List Agent) → Unique as' → Unique (keep p as')
Unique-keep p [] u = tt
Unique-keep p (a ∷ as') u =
    ground (arith, Unique-keep p as', All-keep (λ b. a.source_id ≢ b.source_id) p as' u.0)

pub any-append :
    (p : String → Bool) (xs ys : List String)
    → any p (xs ++ ys) ≡ (if any p xs then true else any p ys)
any-append p [] ys = refl
any-append p (x ∷ xs) ys = ground (arith, any-append p xs ys)

pub member-other :
    (k j : String) (xs : List String) → k ≢ j → All (λ s. s ≡ j) xs → member k xs ≡ false
member-other k j [] ne h = refl
member-other k j (x ∷ xs) ne h = ground (arith, str_eq_iff k x, member-other k j xs ne, h.0, h.1)

-- Ids that are all one, before ids that it is not among, count for one if there are any.
pub distinct-block :
    (k : String) (xs ys : List String)
    → All (λ s. s ≡ k) xs
    → member k ys ≡ false
    → length (distinct (xs ++ ys)) ≡ (if is_nil xs then 0 else 1) + length (distinct ys)
distinct-block k [] ys h n = omega arith
distinct-block k (x ∷ []) ys h n = rw (h.0, n) (omega arith)
distinct-block k (x ∷ y ∷ xs) ys h n =
    ground (arith, str_eq_iff x y, h.0, h.1, distinct-block k (y ∷ xs) ys h.1 n)

abbrev pub ids : List EnforcementViolation → List String
ids vs = map (λ v. v.agent_id) vs

ids-append : (vs ws : List EnforcementViolation) → ids (vs ++ ws) ≡ ids vs ++ ids ws
ids-append [] ws = refl
ids-append (v ∷ vs) ws = rw (ids-append vs ws)

is_nil-ids : (vs : List EnforcementViolation) → is_nil (ids vs) ≡ is_nil vs
is_nil-ids [] = refl
is_nil-ids (v ∷ vs) = refl

module _ (f : Agent → List EnforcementViolation)
    (named : (a : Agent) → All (λ s. s ≡ a.source_id) (ids (f a))) where
  member-collect :
      (k : String) (as' : List Agent)
      → All (λ b. k ≢ b.source_id) as'
      → member k (ids (collect f as')) ≡ false
  member-collect k [] h = refl
  member-collect k (a ∷ as') h = rw (
    ids-append (f a) (collect f as'),
    any-append (str_eq k) (ids (f a)) (ids (collect f as')),
    member-other k a.source_id (ids (f a)) h.0 (named a),
    member-collect k as' h.1,
  )

  -- The distinct ids of the violations are as many as the agents with violations.
  pub distinct-collect :
      (as' : List Agent)
      → Unique as'
      → length (distinct (ids (collect f as'))) ≡ length (keep (λ a. not (is_nil (f a))) as')
  distinct-collect [] u = refl
  distinct-collect (a ∷ as') u =
      let block =
        distinct-block a.source_id (ids (f a)) (ids (collect f as')) (named a)
          (member-collect a.source_id as' u.0) in
      rw (ids-append (f a) (collect f as'), block, is_nil-ids (f a), distinct-collect as' u.1)
        (ground arith)

pub keep-cong :
    {A : Type 0} (p q : A → Bool) (xs : List A) → ((x : A) → p x ≡ q x) → keep p xs ≡ keep q xs
keep-cong p q [] h = refl
keep-cong p q (x ∷ xs) h = rw (h x, keep-cong p q xs h)

pub keep-split :
    {A : Type 0} (p : A → Bool) (xs : List A)
    → length (keep p xs) + length (keep (λ x. not (p x)) xs) ≡ length xs
keep-split p [] = refl
keep-split p (x ∷ xs) = ground (arith, keep-split p xs)
