-- ===== src/Enforcement/Trigger.antt =====
-- `trigger_check` of backend/domains/enforcement/service.py: a run, compared with the results before
-- it. What the audit and the webhooks are told beyond the keys of the violations is left out.
use sentora.Prelude.{
  Bool, Bool-cases, List, Option, Option-cases, String, [], false, if◌then◌else◌, inl, inr, keep,
  length, ltb, not, refl, some, str_eq, str_eq_iff, subst, true, ℕ, ◌++◌, ◌+◌, ◌∙◌, ◌∷◌, ◌≡◌, ◌≢◌,
}
use sentora.Enforcement.Engine.{
  EnforcementRuntime, get_rule, outcome, run_enforcement_checks, select_rules,
}
use sentora.Enforcement.Entities.{
  CheckStatus, EnforcementDb, EnforcementResult, EnforcementRule, EnforcementViolation, failed,
  passed,
}
use sentora.Enforcement.Runs.{outcome-Answers}
use sentora.Scope.{member, member-append}
use Prim.Native.String.{◌++◌ as ◌⧺◌}

-- f"{rule_id}:{agent_id}"
abbrev pub violation_key : String → String → String
violation_key rule_id agent_id = rule_id ⧺ (":" ⧺ agent_id)

abbrev pub keys_of_rule : String → List EnforcementViolation → List String
keys_of_rule rule_id [] = []
keys_of_rule rule_id (v ∷ vs) = violation_key rule_id v.agent_id ∷ keys_of_rule rule_id vs

abbrev pub violation_keys : List EnforcementResult → List String
violation_keys [] = []
violation_keys (r ∷ rs) = keys_of_rule r.rule_id r.violations ++ violation_keys rs

-- `get_latest_results`: of each rule the result that was checked last. The order is not read here.
abbrev pub keep_latest : EnforcementResult → List EnforcementResult → List EnforcementResult
keep_latest r [] = r ∷ []
keep_latest r (x ∷ xs) =
    let rest = keep_latest r xs in
    if str_eq x.rule_id r.rule_id
    then (if ltb x.checked_at r.checked_at then r else x) ∷ xs
    else x ∷ rest

unfoldable pub get_latest_results : List (String × EnforcementResult) → List EnforcementResult
get_latest_results [] = []
get_latest_results ((run_id, r) ∷ ds) = keep_latest r (get_latest_results ds)

-- `xs - ys` of sets.
abbrev pub difference : List String → List String → List String
difference xs ys = keep (λ k. not (member k ys)) xs

abbrev pub has_status : CheckStatus → EnforcementResult → Bool
has_status passed r = elim r.status [ passed ↦ true | failed ↦ false ]
has_status failed r = elim r.status [ passed ↦ false | failed ↦ true ]

abbrev pub count_violations : List EnforcementResult → ℕ
count_violations [] = 0
count_violations (r ∷ rs) = length r.violations + count_violations rs

-- The response, with the keys that the two webhook events are sent for.
pub record CheckRun : Type 0 where
  pub rules_evaluated : ℕ
  pub rules_passed : ℕ
  pub rules_failed : ℕ
  pub total_violations : ℕ
  pub duration_ms : ℕ
  pub new_violations : List String
  pub resolved_violations : List String

member-difference :
    (k : String) (xs ys : List String)
    → member k xs ≡ true
    → member k ys ≡ false
    → member k (difference xs ys) ≡ true
member-difference k [] ys m n = cc m
member-difference k (x ∷ xs) ys m n = elim (Bool-cases (str_eq k x)) [
  | inl y ↦
      let kept : member x ys ≡ false = subst (λ z. member z ys ≡ false) ((str_eq_iff k x).0 y) n in
      rw (kept, y) refl
  | inr other ↦
      let there : member k xs ≡ true = rw other at m in
      let rest = member-difference k xs ys there n in
      elim (Bool-cases (member x ys)) [
        | inl gone ↦ rw gone rest
        | inr stays ↦ rw (stays, other) rest
      ]
]

member-keys :
    (k rule_id : String) (vs : List EnforcementViolation)
    → ((b : String) → k ≢ violation_key rule_id b)
    → member k (keys_of_rule rule_id vs) ≡ false
member-keys k rule_id [] apart = refl
member-keys k rule_id (v ∷ vs) apart =
    elim (Bool-cases (str_eq k (violation_key rule_id v.agent_id))) [
      | inl y ↦ absurd (apart v.agent_id ((str_eq_iff k (violation_key rule_id v.agent_id)).0 y))
      | inr n ↦ rw n (member-keys k rule_id vs apart)
    ]

module _ (rt : EnforcementRuntime) where
  unfoldable pub trigger_check :
      String
      → ℕ
      → (ℕ → ℕ)
      → (ℕ → Option String)
      → EnforcementDb
      → Option String
      → CheckRun × EnforcementDb
  trigger_check run_id duration_ms clock raised db rule_id =
      let prev_violation_keys = violation_keys (get_latest_results db.enforcement_results) in
      let ran = run_enforcement_checks rt run_id duration_ms clock raised db rule_id in
      let results = ran.0.0 in
      let new_violation_keys = violation_keys results in
      (
        record {
          rules_evaluated = length results;
          rules_passed = length (keep (has_status passed) results);
          rules_failed = length (keep (has_status failed) results);
          total_violations = count_violations results;
          duration_ms = ran.0.1;
          new_violations = difference new_violation_keys prev_violation_keys;
          resolved_violations = difference prev_violation_keys new_violation_keys;
        },
        ran.1,
      )

  module _ (run_id : String) (duration_ms : ℕ) (clock : ℕ → ℕ) (raised : ℕ → Option String)
      (db : EnforcementDb) (rule_id k : String) (named : str_eq rule_id "" ≡ false)
      (apart : (r : EnforcementRule) (b : String)
        → get_rule rt db rule_id ≡ some r
        → k ≢ violation_key r.id b) where
    unreported :
        member k (
          violation_keys
            (run_enforcement_checks rt run_id duration_ms clock raised db (some rule_id)).0.0)
        ≡ false
    unfolding run_enforcement_checks
    unreported = elim (Option-cases (get_rule rt db rule_id)) [
      | inl e ↦
          let none_selected : select_rules rt db (some rule_id) ≡ [] =
            rw (select_rules, named, e) refl in
          rw (run_enforcement_checks, none_selected) refl
      | inr (r, e) ↦
          let one_selected : select_rules rt db (some rule_id) ≡ r ∷ [] =
            rw (select_rules, named, e) refl in
          let result = outcome rt db r (clock 0) (raised 0) in
          let id = (outcome-Answers rt clock raised db 0 r).0 in
          rw (run_enforcement_checks, one_selected)
            (member-append k (keys_of_rule result.rule_id result.violations) []
              ∙ rw (id, member-keys k r.id result.violations (λ b. apart r b e)) refl)
    ]

    -- When one rule is checked, every violation that the latest result of another rule holds is among
    -- the resolved ones of which the webhooks are told, although that rule was not evaluated.
    pub trigger_check-resolved :
        member k (violation_keys (get_latest_results db.enforcement_results)) ≡ true
        → member k
            (trigger_check run_id duration_ms clock raised db (some rule_id)).0.resolved_violations
          ≡ true
    unfolding trigger_check
    trigger_check-resolved held =
        member-difference k (violation_keys (get_latest_results db.enforcement_results)) _ held
          unreported
