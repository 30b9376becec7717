-- ===== src/Compliance/Checks/Failing.antt =====
-- Which agents fail which check (backend/domains/compliance/checks), said without the executors.
use sentora.Prelude.{
  Bool, Bool-cases, List, Option-cases, String, [], any, arith, false, if◌then◌else◌, inl, inr,
  keep, length, ltb, map, none, not, refl, some, str_eq, subst, take, true, ℕ, ◌&&◌, ◌*◌, ◌+◌, ◌==◌,
  ◌||◌, ◌∷◌, ◌≡◌,
}
use sentora.Compliance.Checks.{Endpoint, Fleet, Host, InstalledApp, installed}
use sentora.Compliance.Checks.Agents.{tuple_lt}
use sentora.Compliance.Checks.Expected.{
  AgentCheck, custom_check, flags, online_check, prohibited_check, required_check, threshold_check,
  version_check,
}
use sentora.Compliance.Checks.Inventory.{classified_apps, exceeds}
use sentora.Compliance.Checks.Tally.{IsTally}
use sentora.Compliance.Entities.{Parameters}
use sentora.Compliance.Sharing.{Findings}
use sentora.Eol.Entities.{AppSummary}
use sentora.Scope.{member}

-- The parts of a version, a part that is no number counting as zero.
abbrev pub numbers : Host → String → List ℕ
numbers host v = map (λ s. elim (host.to_int s) [ none ↦ 0 | some n ↦ n ]) (host.split_dots v)

-- One list of numbers comes before another: at the first place where they differ, or by its end.
abbrev pub precedes : List ℕ → List ℕ → Bool
precedes [] ys = not (length ys == 0)
precedes (x ∷ xs) [] = false
precedes (x ∷ xs) (y ∷ ys) = let later = precedes xs ys in ltb x y || (x == y && later)

-- A summary that gives an application a category.
abbrev pub classifies : String → AppSummary → Bool
classifies app s =
    elim s.category [ none ↦ false | some c ↦ not (str_eq c "") ] && str_eq app s.normalized_name

-- The agents that have to fail: those last active too long ago, but not those never active; those with
-- a version before the minimum; those that lack a required application; those without an application of
-- the pattern, or with one; those with an application that one of the first 10,000 rows of prohibited
-- applications names; those whose share of applications without a category is over the limit.
abbrev pub fails : Host → Fleet → ℕ → Parameters → AgentCheck → Endpoint → Bool
fails host fleet now ps online_check e = elim e.last_active [
  | none ↦ false
  | some t ↦ ltb (t + host.get_number "max_offline_days" 7 ps * 86400) now
]
fails host fleet now ps version_check e = elim e.agent_version [
  | none ↦ false
  | some v ↦
      not (str_eq v "") && precedes (numbers host v) (numbers host (host.get_text "min_version" ps))
]
fails host fleet now ps required_check e =
    any (λ r. not (any (host.search r) (installed e))) (host.get_texts "required_apps" ps)
fails host fleet now ps custom_check e =
    if host.get_flag "must_exist" true ps
    then not (any (host.search_glob (host.get_text "app_pattern" ps)) (installed e))
    else any (host.search_glob (host.get_text "app_pattern" ps)) (installed e)
fails host fleet now ps prohibited_check e =
    any
      (λ app.
        any (λ a. str_eq (host.lower app) (host.lower a.normalized_name))
          (take 10000 (keep (λ a. str_eq a.risk_level "prohibited") fleet.installed_apps)))
      (installed e)
fails host fleet now ps threshold_check e =
    ltb 0 (length (installed e))
    && host.percent_gt
        (length (keep (λ app. not (any (classifies app) fleet.app_summaries)) (installed e)))
        (length (installed e)) (host.get_number "max_unclassified_percent" 10 ps)

precedes-tuple_lt : (xs ys : List ℕ) → tuple_lt xs ys ≡ precedes xs ys
precedes-tuple_lt [] [] = refl
precedes-tuple_lt [] (y ∷ ys) = ground arith
precedes-tuple_lt (x ∷ xs) [] = refl
precedes-tuple_lt (x ∷ xs) (y ∷ ys) = ground (arith, precedes-tuple_lt xs ys)

any-cong : {A : Type 0} (p q : A → Bool) (xs : List A) → ((x : A) → p x ≡ q x) → any p xs ≡ any q xs
any-cong p q [] h = refl
any-cong p q (x ∷ xs) h = rw (h x, any-cong p q xs h)

keep-cong :
    {A : Type 0} (p q : A → Bool) (xs : List A) → ((x : A) → p x ≡ q x) → keep p xs ≡ keep q xs
keep-cong p q [] h = refl
keep-cong p q (x ∷ xs) h = elim (Bool-cases (q x)) [
  | inl y ↦ rw (h x, y) (rw (keep-cong p q xs h) refl)
  | inr n ↦ rw (h x, n) (keep-cong p q xs h)
]

-- An application is among the lowered names of rows.
member-rows :
    (host : Host) (app : String) (rows : List InstalledApp)
    → member app (map host.lower (map (λ a. a.normalized_name) rows))
      ≡ any (λ a. str_eq app (host.lower a.normalized_name)) rows
member-rows host app [] = refl
member-rows host app (r ∷ rows) = rw (member-rows host app rows)

member-classified :
    (app : String) (summaries : List AppSummary)
    → member app (
        map
          (λ s. s.normalized_name)
          (keep (λ s. elim s.category [ none ↦ false | some c ↦ not (str_eq c "") ]) summaries))
      ≡ any (classifies app) summaries
member-classified app [] = refl
member-classified app (s ∷ ss) =
    let given : Bool = elim s.category [ none ↦ false | some c ↦ not (str_eq c "") ] in
    elim (Bool-cases given) [
      | inl y ↦ rw (classifies, y) (rw (member-classified app ss) refl)
      | inr n ↦ rw (classifies, n) (member-classified app ss)
    ]

pub flags-fails :
    (host : Host) (fleet : Fleet) (now : ℕ) (ps : Parameters) (k : AgentCheck) (e : Endpoint)
    → flags host fleet now ps k e ≡ fails host fleet now ps k e
flags-fails host fleet now ps online_check e = refl
flags-fails host fleet now ps version_check e = elim (Option-cases e.agent_version) [
  | inl gone ↦ rw gone refl
  | inr (v, held) ↦ rw (held, precedes-tuple_lt (numbers host v) _) refl
]
flags-fails host fleet now ps required_check e = refl
flags-fails host fleet now ps custom_check e = refl
flags-fails host fleet now ps prohibited_check e = any-cong _ _ (installed e) (λ app.
    member-rows host (host.lower app)
      (take 10000 (keep (λ a. str_eq a.risk_level "prohibited") fleet.installed_apps)))
flags-fails host fleet now ps threshold_check e =
    let same =
      keep-cong (λ app. not (member app (classified_apps fleet)))
        (λ app. not (any (classifies app) fleet.app_summaries)) (installed e)
        (λ app. rw (member-classified app fleet.app_summaries) refl) in
    rw (exceeds, same)
      (elim (Bool-cases (ltb 0 (length (installed e)))) [ inl y ↦ rw y refl | inr n ↦ rw n refl ])

pub IsTally-cong :
    {p q : Endpoint → Bool} {scoped : List Endpoint} {r : Findings}
    → ((e : Endpoint) → p e ≡ q e)
    → IsTally p scoped r
    → IsTally q scoped r
IsTally-cong {scoped = scoped} {r = r} h t = subst (λ b. IsTally b scoped r) (λ i e. h e i) t
