-- ===== src/Enforcement/Verdicts.antt =====
-- What the checks of backend/domains/enforcement/engine.py decide, against what a rule demands of one
-- agent.
use sentora.Prelude.{
  All, Bool, Bool-cases, List, String, [], any, ap, arith, false, if◌then◌else◌, inl, inr, keep,
  length, length-take, ltb, not, refl, sym, take, true, ℕ, ◌&&◌, ◌==◌, ◌↔◌, ◌∙◌, ◌∷◌, ◌≡◌, ◌≤◌,
}
use sentora.Enforcement.Counts.{
  Unique, Unique-keep, distinct-collect, ids, is_nil, keep-cong, keep-split,
}
use sentora.Enforcement.Engine.{
  EnforcementRuntime, check_allowlist, check_dispatch, check_forbidden, check_required,
  compile_patterns, evaluate_rule, find_agents, scope_of,
}
use sentora.Enforcement.Entities.{
  EnforcementDb, EnforcementResult, EnforcementRule, EnforcementViolation, RuleType, allowlist,
  failed, forbidden, passed, required,
}
use sentora.Enforcement.Violations.{
  report, collect, collect_apps, distinct, empty_report, get_list, get_taxonomy_patterns,
  matches_any, max_violations, missing, present, truncate, unapproved,
}
use sentora.Scope.{Agent}

-- `all(p(x) for x in xs)`
abbrev pub every : (String → Bool) → List String → Bool
every p [] = true
every p (x ∷ xs) = p x && every p xs

-- What a rule demands of an agent, given the patterns of its category: that some app matches, that
-- none does, or that all do.
abbrev pub complies : RuleType → List (String → Bool) → Agent → Bool
complies required ps a = any (λ app. matches_any app ps) (get_list a.installed_app_names)
complies forbidden ps a = every (λ app. not (matches_any app ps)) (get_list a.installed_app_names)
complies allowlist ps a = every (λ app. matches_any app ps) (get_list a.installed_app_names)

abbrev pub compliant : RuleType → List (String → Bool) → List Agent → ℕ
compliant t ps as' = length (keep (complies t ps) as')

abbrev pub violating : RuleType → List (String → Bool) → List Agent → ℕ
violating t ps as' = length (keep (λ a. not (complies t ps a)) as')

apps-is_nil :
    (bad good : String → Bool) (detail : String → String) (a : Agent) (apps : List String)
    → ((app : String) → good app ≡ not (bad app))
    → not (is_nil (collect_apps bad detail a apps)) ≡ not (every good apps)
apps-is_nil bad good detail a [] h = refl
apps-is_nil bad good detail a (x ∷ xs) h = ground (arith, h x, apps-is_nil bad good detail a xs h)

apps-named :
    (bad : String → Bool) (detail : String → String) (a : Agent) (apps : List String)
    → All (λ s. s ≡ a.source_id) (ids (collect_apps bad detail a apps))
apps-named bad detail a [] = tt
apps-named bad detail a (x ∷ xs) = ground (arith, apps-named bad detail a xs)

missing-length :
    (rule : EnforcementRule) (ps : List (String → Bool)) (as' : List Agent)
    → length (collect (missing rule ps) as') ≡ violating required ps as'
missing-length rule ps [] = refl
missing-length rule ps (a ∷ as') = ground (arith, missing-length rule ps as')

present-count :
    (rule : EnforcementRule) (ps : List (String → Bool)) (as' : List Agent)
    → Unique as'
    → length (distinct (ids (collect (present rule ps) as'))) ≡ violating forbidden ps as'
present-count rule ps as' u =
    distinct-collect (present rule ps) (λ a. apps-named _ _ a (get_list a.installed_app_names)) as'
      u
    ∙ ap length (
        keep-cong (λ a. not (is_nil (present rule ps a))) (λ a. not (complies forbidden ps a)) as'
          (λ a. apps-is_nil _ _ _ a (get_list a.installed_app_names) (λ app. refl)))

not-not : (b : Bool) → b ≡ not (not b)
not-not b = ground arith

unapproved-count :
    (ps : List (String → Bool)) (as' : List Agent)
    → Unique as'
    → length (distinct (ids (collect (unapproved ps) as'))) ≡ violating allowlist ps as'
unapproved-count ps as' u =
    distinct-collect (unapproved ps) (λ a. apps-named _ _ a (get_list a.installed_app_names)) as' u
    ∙ ap length (
        keep-cong (λ a. not (is_nil (unapproved ps a))) (λ a. not (complies allowlist ps a)) as'
          (λ a.
            apps-is_nil _ _ _ a (get_list a.installed_app_names)
              (λ app. not-not (matches_any app ps))))

-- What a result says of the agents that a rule looks at.
pub record IsVerdict (t : RuleType) (ps : List (String → Bool)) (as' : List Agent)
    (r : EnforcementResult) : Type 0 where
  pub total : r.total_agents ≡ length as'
  pub good : r.compliant_agents ≡ compliant t ps as'
  pub bad : r.non_compliant_agents ≡ violating t ps as'
  pub status : (r.status ≡ passed) ↔ All (λ a. complies t ps a ≡ true) as'
  pub cut : length r.violations ≤ max_violations

none_violating :
    (t : RuleType) (ps : List (String → Bool)) (as' : List Agent)
    → (violating t ps as' ≡ 0) ↔ All (λ a. complies t ps a ≡ true) as'
none_violating t ps [] = ground arith
none_violating t ps (a ∷ as') =
    let h = none_violating t ps as' in
    elim (Bool-cases (complies t ps a)) [
      | inl e ↦ rw e ((λ z. (refl, h.0 z)), (λ l. h.1 l.1))
      | inr e ↦ rw e ((λ z. absurd (omega (arith, z))), (λ l. absurd (cc l.0)))
    ]

cut_at :
    (n : ℕ) (vs : List EnforcementViolation)
    → length (if ltb n (length vs) then take n vs else vs) ≤ n
cut_at n vs = ground (arith, length-take n vs)

truncate-length : (vs : List EnforcementViolation) → length (truncate vs) ≤ max_violations
truncate-length vs = cut_at max_violations vs

status_lem : (n : ℕ) → ((if n == 0 then passed else failed) ≡ passed) ↔ (n ≡ 0)
status_lem n = ground arith

report-IsVerdict :
    (rule : EnforcementRule) (now n : ℕ) (vs : List EnforcementViolation) (t : RuleType)
    (ps : List (String → Bool)) (as' : List Agent)
    → n ≡ violating t ps as'
    → IsVerdict t ps as' (
        if length as' == 0
        then empty_report rule now passed []
        else report rule now (length as') n vs)
report-IsVerdict rule now n vs t ps [] h = record {
  total = refl;
  good = refl;
  bad = refl;
  status = ((λ e. tt), (λ l. refl));
  cut = omega arith;
}
report-IsVerdict rule now n vs t ps (a ∷ as') h =
    let split = keep-split (complies t ps) (a ∷ as') in
    let none' = none_violating t ps (a ∷ as') in
    let zero' = status_lem n in
    let some' : (length (a ∷ as') == 0) ≡ false = ground arith in
    rw some' (record {
      total = refl;
      good = omega (arith, h, split);
      bad = h;
      status = ((λ e. none'.0 (sym h ∙ zero'.0 e)), (λ l. zero'.1 (h ∙ none'.1 l)));
      cut = truncate-length vs;
    })

module _ (rt : EnforcementRuntime) where
  -- Where the category has a pattern that compiles, and no two agents have one id, the result of a
  -- rule counts the agents in its scope, those that comply with it and those that do not; it is a
  -- pass exactly when every agent in scope complies; and it lists at most 10,000 violations.
  pub evaluate_rule-IsVerdict :
      (db : EnforcementDb) (rule : EnforcementRule) (now : ℕ) (p : String → Bool)
      (ps : List (String → Bool))
      → compile_patterns rt (get_taxonomy_patterns db rule.taxonomy_category_id) ≡ p ∷ ps
      → Unique db.agents
      → IsVerdict rule.rule_type
          (p ∷ ps)
          (find_agents rt db (scope_of rt rule))
          (evaluate_rule rt db rule now)
  unfolding evaluate_rule check_required check_forbidden check_allowlist
  evaluate_rule-IsVerdict db rule now p ps e u =
      let as' = find_agents rt db (scope_of rt rule) in
      let u' : Unique as' = Unique-keep (rt.matches (scope_of rt rule)) db.agents u in
      rw (evaluate_rule, e)
        (elim rule.rule_type
          as (λ t.
            IsVerdict t (p ∷ ps) as'
              (check_dispatch rt t db rule (p ∷ ps) (scope_of rt rule) now)) [
                | required ↦
                    report-IsVerdict rule now _ (collect (missing rule (p ∷ ps)) as') required
                      (p ∷ ps) as' (missing-length rule (p ∷ ps) as')
                | forbidden ↦
                    report-IsVerdict rule now _ (collect (present rule (p ∷ ps)) as') forbidden
                      (p ∷ ps) as' (present-count rule (p ∷ ps) as' u')
                | allowlist ↦
                    report-IsVerdict rule now _ (collect (unapproved (p ∷ ps)) as') allowlist
                      (p ∷ ps) as' (unapproved-count (p ∷ ps) as' u')
              ])
