-- ===== src/Compliance/Checks/Tally.antt =====
-- What the tails of the executors of backend/domains/compliance/checks count.
use sentora.Prelude.{
  All, Bool, Bool-cases, List, String, [], any, ap, arith, false, if◌then◌else◌, inl, inr, keep,
  length, length-take, ltb, map, not, refl, str_eq, sym, take, true, ℕ, ◌++◌, ◌==◌, ◌∷◌, ◌≡◌, ◌≢◌,
  ◌≤◌,
}
use sentora.Collections.{Distinct}
use sentora.Compliance.Checks.{Endpoint, agent_ids, gather_all, source_id_of, tally}
use sentora.Compliance.Entities.{CheckStatus, ComplianceViolation, failed, passed}
use sentora.Compliance.Sharing.{Findings}
use sentora.Enforcement.Counts.{any-append, distinct-block, is_nil, keep-split, member-other}
use sentora.Enforcement.Violations.{distinct, max_violations}
use sentora.Scope.{member}

-- The totals, the verdict and the violations of a check over the agents in scope, of which those that
-- fail it are bad.
pub record IsTally (bad : Endpoint → Bool) (scoped : List Endpoint) (r : Findings) : Type 0 where
  pub all : r.total_endpoints ≡ length scoped
  pub failing : r.non_compliant_endpoints ≡ length (keep bad scoped)
  pub complying : r.compliant_endpoints ≡ length (keep (λ e. not (bad e)) scoped)
  pub verdict : r.status ≡ (if any bad scoped then failed else passed)
  pub listed : length r.violations ≤ 10000

any-length : (p : Endpoint → Bool) (xs : List Endpoint) → any p xs ≡ not (length (keep p xs) == 0)
any-length p [] = refl
any-length p (x ∷ xs) = ground (arith, any-length p xs)

cut_at :
    (n : ℕ) (vs : List ComplianceViolation)
    → length (if ltb n (length vs) then take n vs else vs) ≤ n
cut_at n vs = ground (arith, length-take n vs)

if-not : (b : Bool) (s t : CheckStatus) → (if b then s else t) ≡ (if not b then t else s)
if-not true s t = refl
if-not false s t = refl

pub tally-IsTally :
    (now nc : ℕ) (bad : Endpoint → Bool) (scoped : List Endpoint) (vs : List ComplianceViolation)
    (summary : String)
    → nc ≡ length (keep bad scoped)
    → IsTally bad scoped (tally now (length scoped) nc vs summary)
tally-IsTally now nc bad scoped vs summary e = record {
  all = refl;
  failing = e;
  complying = omega (arith, e, keep-split bad scoped);
  verdict = rw (any-length bad scoped, e) (if-not (length (keep bad scoped) == 0) passed failed);
  listed = cut_at max_violations vs;
}

pub length-map_lem : {A B : Type 0} (g : A → B) (xs : List A) → length (map g xs) ≡ length xs
length-map_lem g [] = refl
length-map_lem g (x ∷ xs) = rw (length-map_lem g xs)

ids-append :
    (vs ws : List ComplianceViolation) → agent_ids (vs ++ ws) ≡ agent_ids vs ++ agent_ids ws
ids-append [] ws = refl
ids-append (v ∷ vs) ws = rw (ids-append vs ws)

is_nil-ids : (vs : List ComplianceViolation) → is_nil (agent_ids vs) ≡ is_nil vs
is_nil-ids [] = refl
is_nil-ids (v ∷ vs) = refl

-- The violations of an agent name it.
abbrev pub Names : (Endpoint → List ComplianceViolation) → Type 0
Names f = (e : Endpoint) → All (λ s. s ≡ source_id_of e) (agent_ids (f e))

module _ (f : Endpoint → List ComplianceViolation) (named : Names f) where
  member-gather_all :
      (k : String) (es : List Endpoint)
      → All (λ e. source_id_of e ≢ k) es
      → member k (agent_ids (gather_all f es)) ≡ false
  member-gather_all k [] h = refl
  member-gather_all k (e ∷ es) h =
      rw
        (
          ids-append (f e) (gather_all f es),
          any-append (str_eq k) (agent_ids (f e)) (agent_ids (gather_all f es)),
          member-other k (source_id_of e) (agent_ids (f e)) (λ p. h.0 (sym p)) (named e),
          member-gather_all k es h.1,
        )
        refl

  pub distinct-gather_all :
      (bad : Endpoint → Bool) (es : List Endpoint)
      → ((e : Endpoint) → is_nil (f e) ≡ not (bad e))
      → Distinct source_id_of es
      → length (distinct (agent_ids (gather_all f es))) ≡ length (keep bad es)
  distinct-gather_all bad [] h d = refl
  distinct-gather_all bad (e ∷ es) h d =
      let block =
        distinct-block (source_id_of e) (agent_ids (f e)) (agent_ids (gather_all f es)) (named e)
          (member-gather_all (source_id_of e) es d.0) in
      elim (Bool-cases (bad e)) [
        | inl y ↦
            rw
              (
                ids-append (f e) (gather_all f es),
                block,
                is_nil-ids (f e),
                h e,
                y,
                distinct-gather_all bad es h d.1,
              )
              (omega arith)
        | inr n ↦
            rw
              (
                ids-append (f e) (gather_all f es),
                block,
                is_nil-ids (f e),
                h e,
                n,
                distinct-gather_all bad es h d.1,
              )
              (omega arith)
      ]

-- The loops that filter first gather what those that do not would.
pub gather_all-keep :
    (p : Endpoint → Bool) (f : Endpoint → List ComplianceViolation) (es : List Endpoint)
    → ((e : Endpoint) → p e ≡ false → f e ≡ [])
    → gather_all f (keep p es) ≡ gather_all f es
gather_all-keep p f [] h = refl
gather_all-keep p f (e ∷ es) h = elim (Bool-cases (p e)) [
  | inl y ↦ rw (y, gather_all-keep p f es h) refl
  | inr n ↦ rw (n, h e n, gather_all-keep p f es h) refl
]

pub map-gather_all :
    (p : Endpoint → Bool) (g : Endpoint → ComplianceViolation) (es : List Endpoint)
    → map g (keep p es) ≡ gather_all (λ e. if p e then g e ∷ [] else []) es
map-gather_all p g [] = refl
map-gather_all p g (e ∷ es) = elim (Bool-cases (p e)) [
  | inl y ↦ rw (y, map-gather_all p g es) refl
  | inr n ↦ rw (n, map-gather_all p g es) refl
]

-- What is made of the elements that pass a test is empty when none does.
pub is_nil-map-keep :
    {A B : Type 0} (g : A → B) (p : A → Bool) (xs : List A)
    → is_nil (map g (keep p xs)) ≡ not (any p xs)
is_nil-map-keep g p [] = refl
is_nil-map-keep g p (x ∷ xs) = elim (Bool-cases (p x)) [
  | inl y ↦ rw y refl
  | inr n ↦ rw n (is_nil-map-keep g p xs)
]

-- The violations that are made for an agent name it.
pub ids-map :
    {A : Type 0} (id : String) (g : A → ComplianceViolation) (xs : List A)
    → ((x : A) → (g x).agent_id ≡ id)
    → All (λ s. s ≡ id) (agent_ids (map g xs))
ids-map id g [] h = tt
ids-map id g (x ∷ xs) h = (h x, ids-map id g xs h)

-- The executors that make one violation for each agent that fails.
pub map-IsTally :
    (now : ℕ) (p : Endpoint → Bool) (g : Endpoint → ComplianceViolation) (scoped : List Endpoint)
    (summary : String)
    → IsTally p scoped
        (tally now (length scoped) (length (map g (keep p scoped))) (map g (keep p scoped)) summary)
map-IsTally now p g scoped summary =
    tally-IsTally now (length (map g (keep p scoped))) p scoped (map g (keep p scoped)) summary
      (length-map_lem g (keep p scoped))

-- The executors that make any number for each agent that fails, and count the agents.
pub gather_all-IsTally :
    (now : ℕ) (bad : Endpoint → Bool) (f : Endpoint → List ComplianceViolation)
    (scoped : List Endpoint) (summary : String)
    → Names f
    → ((e : Endpoint) → is_nil (f e) ≡ not (bad e))
    → Distinct source_id_of scoped
    → IsTally bad scoped (
        tally now
          (length scoped)
          (length (distinct (agent_ids (gather_all f scoped))))
          (gather_all f scoped)
          summary)
gather_all-IsTally now bad f scoped summary named nil apart =
    tally-IsTally now (length (distinct (agent_ids (gather_all f scoped)))) bad scoped
      (gather_all f scoped) summary (distinct-gather_all f named bad scoped nil apart)

-- The executor that makes one violation for each agent that fails, and counts the agents.
pub once-IsTally :
    (now : ℕ) (p : Endpoint → Bool) (g : Endpoint → ComplianceViolation) (scoped : List Endpoint)
    (summary : String)
    → ((e : Endpoint) → (g e).agent_id ≡ source_id_of e)
    → Distinct source_id_of scoped
    → IsTally p scoped (
        tally now
          (length scoped)
          (length (distinct (agent_ids (map g (keep p scoped)))))
          (map g (keep p scoped))
          summary)
once-IsTally now p g scoped summary named apart =
    let f : Endpoint → List ComplianceViolation = λ e. if p e then g e ∷ [] else [] in
    rw (map-gather_all p g scoped) (
      gather_all-IsTally now p f scoped summary
        (λ e. elim (Bool-cases (p e)) [ inl y ↦ rw y (named e, tt) | inr n ↦ rw n tt ])
        (λ e. elim (Bool-cases (p e)) [ inl y ↦ rw y refl | inr n ↦ rw n refl ]) apart)

-- A check that no agent fails.
pub nothing-IsTally :
    (now : ℕ) (bad : Endpoint → Bool) (scoped : List Endpoint) (summary : String)
    → ((e : Endpoint) → bad e ≡ false)
    → IsTally bad scoped (tally now (length scoped) 0 [] summary)
nothing-IsTally now bad scoped summary h =
    tally-IsTally now 0 bad scoped [] summary (sym (ap length (none_kept scoped)))
  where
    none_kept : (es : List Endpoint) → keep bad es ≡ []
    none_kept [] = refl
    none_kept (e ∷ es) = rw (h e) (none_kept es)
