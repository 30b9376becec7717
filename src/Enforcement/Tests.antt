-- ===== src/Enforcement/Tests.antt =====
-- Runs of the enforcement engine (backend/domains/enforcement/engine.py), and the witnesses of its
-- properties. Patterns here are names; every filter selects every agent.
use Prim.Native.String.{slice, ◌++◌ as ◌⧺◌}
use text.Mathlib.TextPositions.{slice-append_left}
use sentora.Prelude.{
  ◌++◌, map, List, Option, String, [], ap, if◌then◌else◌, length, none, refl, some, str_eq,
  str_eq_iff, subst, true, ℕ, ◌==◌, ◌∙◌, ◌∷◌, ◌≡◌, ◌≢◌,
}
use sentora.Enforcement.Counts.{Unique}
use sentora.Enforcement.Engine.{
  EnforcementRuntime, check_forbidden, check_required, evaluate_rule, get_rule,
  run_enforcement_checks,
}
use sentora.Enforcement.Entities.{
  EnforcementDb, EnforcementResult, EnforcementRule, RuleType, TaxonomyEntry, allowlist, forbidden,
  high, required,
}
use sentora.Enforcement.Runs.{Answers, Chosen, Pointwise, run_enforcement_checks-Answers}
use sentora.Enforcement.Trigger.{
  get_latest_results, trigger_check, trigger_check-resolved, violation_key, violation_keys,
}
use sentora.Enforcement.Verdicts.{IsVerdict, evaluate_rule-IsVerdict}
use sentora.Enforcement.Violations.{get_taxonomy_patterns}
use sentora.Scope.{Agent, build_agent_scope_filter, member}

abbrev toy : EnforcementRuntime
toy = record {
  compile = λ p. if str_eq p "[" then none else some (str_eq p);
  matches = λ f a. true;
  newest_first = λ rs. rs;
  object_id = λ s. some s;
}

abbrev agent : String → List String → Agent
agent name apps = record {
  source_id = name;
  hostname = none;
  tags = [];
  group_name = "all";
  installed_app_names = some apps;
}

abbrev rule : String → RuleType → EnforcementRule
rule name t = record {
  id = name;
  name = name;
  taxonomy_category_id = "browser";
  rule_type = t;
  severity = high;
  description = none;
  enabled = true;
  scope_groups = [];
  scope_tags = [];
  labels = [];
  created_at = none;
  updated_at = none;
  created_by = none;
  updated_by = none;
}

abbrev browsers : TaxonomyEntry
browsers = record { category = "browser"; patterns = some ("[" ∷ "chrome" ∷ "firefox" ∷ []) }

abbrev fleet : EnforcementDb
fleet = record {
  agents = agent "a" ("chrome" ∷ "firefox" ∷ []) ∷ agent "b" ("word" ∷ []) ∷ [];
  taxonomy_entries = browsers ∷ [];
  enforcement_rules = rule "r1" required ∷ rule "r2" forbidden ∷ [];
  enforcement_results = [];
}

abbrev name_a : String
name_a = "a"

fleet-Unique : Unique fleet.agents
fleet-Unique = (((λ e. cc ((str_eq_iff name_a "b").1 e)), tt), (tt, tt))

-- The two forbidden apps of one agent are two violations of one agent.
forbidden_counts :
    ((evaluate_rule toy fleet (rule "r2" forbidden) 7).non_compliant_agents ≡ 1)
    × (length (evaluate_rule toy fleet (rule "r2" forbidden) 7).violations ≡ 2)
unfolding evaluate_rule check_forbidden get_taxonomy_patterns
forbidden_counts = (refl, refl)

evaluate_rule-IsVerdict_example :
    IsVerdict allowlist
      (str_eq "chrome" ∷ str_eq "firefox" ∷ [])
      fleet.agents
      (evaluate_rule toy fleet (rule "r3" allowlist) 7)
unfolding get_taxonomy_patterns build_agent_scope_filter
evaluate_rule-IsVerdict_example =
    evaluate_rule-IsVerdict toy fleet (rule "r3" allowlist) 7 (str_eq "chrome")
      (str_eq "firefox" ∷ []) refl fleet-Unique

abbrev fails_second : ℕ → Option String
fails_second n = if n == 1 then some "timeout" else none

abbrev outcomes : List EnforcementResult
outcomes = (run_enforcement_checks toy "run" 12 (λ n. n) fails_second fleet none).0.0

run_enforcement_checks-Answers_example :
    ((rules : List EnforcementRule) × Chosen toy fleet none rules
      × Pointwise (Answers toy (λ n. n) fails_second fleet) 0 rules outcomes)
    × ((run_enforcement_checks toy "run" 12 (λ n. n) fails_second fleet none).1 ≡ record fleet {
      enforcement_results = fleet.enforcement_results ++ map (λ r. ("run", r)) outcomes;
    })
run_enforcement_checks-Answers_example =
    run_enforcement_checks-Answers toy (λ n. n) fails_second fleet "run" 12 none

-- The rule r1 has failed on agent b; then r2 alone is checked.
abbrev checked : EnforcementDb
checked = (run_enforcement_checks toy "run" 12 (λ n. n) (λ n. none) fleet (some "r1")).1

abbrev rule_1 : String
rule_1 = "r1"

abbrev lost_key : String
lost_key = violation_key "r1" "b"

other_rule : (b : String) → lost_key ≢ violation_key "r2" b
other_rule b e =
    let same : rule_1 ≡ "r2" = ap (λ s. slice s 0 2) e ∙ slice-append_left "r2" (":" ⧺ b) in
    cc ((str_eq_iff rule_1 "r2").1 same)

names_other :
    (r : EnforcementRule) (b : String)
    → get_rule toy checked "r2" ≡ some r
    → lost_key ≢ violation_key r.id b
unfolding run_enforcement_checks
names_other r b e =
    let id : "r2" ≡ r.id = ap (λ o. elim o [ none ↦ "" | some x ↦ x.id ]) e in
    subst (λ i. lost_key ≢ violation_key i b) id (other_rule b)

held_before :
    member lost_key (violation_keys (get_latest_results checked.enforcement_results)) ≡ true
unfolding run_enforcement_checks evaluate_rule check_required get_taxonomy_patterns
    get_latest_results
held_before = refl

trigger_check-resolved_example :
    member lost_key
      (trigger_check toy "run2" 3 (λ n. n) (λ n. none) checked (some "r2")).0.resolved_violations
    ≡ true
trigger_check-resolved_example =
    trigger_check-resolved toy "run2" 3 (λ n. n) (λ n. none) checked "r2" lost_key refl names_other
      held_before
