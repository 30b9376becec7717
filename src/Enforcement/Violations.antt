-- ===== src/Enforcement/Violations.antt =====
-- What the checks of backend/domains/enforcement/engine.py collect and report.
use sentora.Prelude.{
  Bool, List, Option, String, [], any, if◌then◌else◌, keep, length, ltb, none, not, some, str_eq,
  take, ℕ, ◌++◌, ◌-◌, ◌==◌, ◌∷◌,
}
use sentora.Enforcement.Entities.{
  CheckStatus, EnforcementDb, EnforcementResult, EnforcementRule, EnforcementViolation,
  TaxonomyEntry, failed, passed, severity_value, type_value,
}
use sentora.Scope.{Agent, member}
use Prim.Native.String.{◌++◌ as ◌⧺◌}

abbrev pub max_violations : ℕ
max_violations = 10000

-- `get("patterns", [])`, `get("installed_app_names", [])`
abbrev pub get_list : Option (List String) → List String
get_list none = []
get_list (some xs) = xs

abbrev pub get_hostname : Agent → String
get_hostname a = elim a.hostname [ none ↦ "unknown" | some h ↦ h ]

-- `_get_taxonomy_patterns`
abbrev pub extend_patterns : List TaxonomyEntry → List String
extend_patterns [] = []
extend_patterns (e ∷ es) = get_list e.patterns ++ extend_patterns es

unfoldable pub get_taxonomy_patterns : EnforcementDb → String → List String
get_taxonomy_patterns db category_id =
    extend_patterns (keep (λ e. str_eq e.category category_id) db.taxonomy_entries)

-- `_matches_any`
abbrev pub matches_any : String → List (String → Bool) → Bool
matches_any app_name compiled_patterns = any (λ p. p app_name) compiled_patterns

-- The violations that the loop over the agents collects, those of each agent by `f`.
abbrev pub collect : (Agent → List EnforcementViolation) → List Agent → List EnforcementViolation
collect f [] = []
collect f (a ∷ as') = f a ++ collect f as'

-- The loop over the apps of an agent: a violation for each one that fails the test.
abbrev pub collect_apps :
    (String → Bool) → (String → String) → Agent → List String → List EnforcementViolation
collect_apps bad detail a [] = []
collect_apps bad detail a (app ∷ apps) =
    let rest = collect_apps bad detail a apps in
    if bad app
    then record {
      agent_id = a.source_id;
      agent_hostname = get_hostname a;
      violation_detail = detail app;
      app_name = some app;
      app_version = none;
    }
      ∷ rest
    else rest

abbrev pub missing : EnforcementRule → List (String → Bool) → Agent → List EnforcementViolation
missing rule compiled a =
    if any (λ app. matches_any app compiled) (get_list a.installed_app_names)
    then []
    else record {
      agent_id = a.source_id;
      agent_hostname = get_hostname a;
      violation_detail =
          "Missing: no application in category '" ⧺ (rule.taxonomy_category_id ⧺ "'");
      app_name = none;
      app_version = none;
    }
      ∷ []

abbrev pub present : EnforcementRule → List (String → Bool) → Agent → List EnforcementViolation
present rule compiled a =
    collect_apps (λ app. matches_any app compiled)
      (λ app.
        "Forbidden application '"
        ⧺ (app ⧺ ("' found (category '" ⧺ (rule.taxonomy_category_id ⧺ "')"))))
      a (get_list a.installed_app_names)

abbrev pub unapproved : List (String → Bool) → Agent → List EnforcementViolation
unapproved compiled a =
    collect_apps (λ app. not (matches_any app compiled))
      (λ app. "Unapproved application '" ⧺ (app ⧺ "' not in allowlist")) a
      (get_list a.installed_app_names)

-- `len({v.agent_id for v in violations})`
abbrev pub distinct : List String → List String
distinct [] = []
distinct (s ∷ ss) = let rest = distinct ss in if member s ss then rest else s ∷ rest

-- `if len(violations) > MAX_VIOLATIONS: violations = violations[:MAX_VIOLATIONS]`
abbrev pub truncate : List EnforcementViolation → List EnforcementViolation
truncate vs = if ltb max_violations (length vs) then take max_violations vs else vs

-- The result of a check that found so many agents and violations.
abbrev pub report : EnforcementRule → ℕ → ℕ → ℕ → List EnforcementViolation → EnforcementResult
report rule now total non_compliant vs = record {
  rule_id = rule.id;
  rule_name = rule.name;
  rule_type = type_value rule.rule_type;
  severity = severity_value rule.severity;
  checked_at = now;
  status = if non_compliant == 0 then passed else failed;
  total_agents = total;
  compliant_agents = total - non_compliant;
  non_compliant_agents = non_compliant;
  violations = truncate vs;
}

-- A result that counts no agents.
abbrev pub empty_report :
    EnforcementRule → ℕ → CheckStatus → List EnforcementViolation → EnforcementResult
empty_report rule now status vs = record {
  rule_id = rule.id;
  rule_name = rule.name;
  rule_type = type_value rule.rule_type;
  severity = severity_value rule.severity;
  checked_at = now;
  status = status;
  total_agents = 0;
  compliant_agents = 0;
  non_compliant_agents = 0;
  violations = vs;
}

abbrev pub system_violation : String → EnforcementViolation
system_violation detail = record {
  agent_id = "system";
  agent_hostname = "sentora";
  violation_detail = detail;
  app_name = none;
  app_version = none;
}
