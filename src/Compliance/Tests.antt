-- ===== src/Compliance/Tests.antt =====
-- Runs of the compliance engine (backend/domains/compliance/engine.py). A cache key here is the name of
-- the check.
use sentora.Prelude.{
  String, [], if◌then◌else◌, inr, map, none, refl, some, str_eq, true, ◌∷◌, ◌≡◌, ◌⊎◌,
}
use sentora.Compliance.Engine.{Catalogue, resolve_active_controls, run_compliance_checks}
use sentora.Compliance.Entities.{ComplianceDb, ControlDefinition, critical, high, warning}
use sentora.Compliance.Sharing.{Findings, label}
use sentora.RateLimit.{check}
use sentora.Scope.{build_agent_scope_filter}

abbrev findings : String ⊎ Findings
findings = inr (record {
  status = warning;
  checked_at = 9;
  total_endpoints = 4;
  compliant_endpoints = 3;
  non_compliant_endpoints = 1;
  violations = [];
  evidence_summary = "3 of 4";
})

abbrev control : String → String → ControlDefinition
control name check = record {
  id = name;
  framework_id = "soc2";
  name = name;
  category = "access";
  severity = high;
  check_type = check;
  parameters = [];
  scope_tags = [];
  scope_groups = [];
}

abbrev toy : Catalogue
toy = record {
  dumps = λ t ps f. t;
  sha256 = λ s. s;
  first_16 = λ s. s;
  framework_ids = "soc2" ∷ "dora" ∷ [];
  framework_controls = λ f.
      if str_eq f "soc2"
      then control "c1" "online" ∷ control "c2" "online" ∷ control "c3" "absent" ∷ []
      else [];
  get_executor = λ t. if str_eq t "absent" then none else some (λ c f. label c findings);
}

abbrev tenant : ComplianceDb
tenant = record {
  framework_configs = ("soc2", true) ∷ [];
  control_configs =
      record {
        control_id = "c2";
        framework_id = "soc2";
        enabled = true;
        severity_override = some critical;
        parameters_override = [];
        scope_tags_override = none;
        scope_groups_override = none;
      }
      ∷ [];
  custom_controls = [];
  results = [];
}

-- Two controls share one query, each with its own severity; the third has no executor.
shared :
    map (λ r. r.control_id) (run_compliance_checks toy "run" 9 tenant none).0 ≡ "c1" ∷ "c2" ∷ []
unfolding run_compliance_checks resolve_active_controls build_agent_scope_filter
shared = refl

overridden :
    map (λ r. r.severity) (run_compliance_checks toy "run" 9 tenant none).0 ≡ high ∷ critical ∷ []
unfolding run_compliance_checks resolve_active_controls build_agent_scope_filter
overridden = refl
