-- ===== src/Compliance/Checks/Coverage.antt =====
-- The executor classification_coverage.py of backend/domains/compliance/checks. An agent has at most one
-- result, so that there are at most as many as agents.
use sentora.Prelude.{
  List, String, [], if◌then◌else◌, keep, length, ltb, map, none, ℕ, ◌-◌, ◌==◌, ◌∷◌,
}
use sentora.Compliance.Checks.{
  Fleet, Host, f_string, in_scope, no_agents, not_applicable_result, source_id_of,
}
use sentora.Compliance.Entities.{
  CheckStatus, ComplianceViolation, Parameters, failed, passed, warning,
}
use sentora.Compliance.Sharing.{Findings}
use sentora.Scope.{ScopeFilter, member}

-- `count_documents({"agent_id": {"$in": ids}} if ids else {})`
abbrev pub count_results : List String → List String → ℕ
count_results [] results = length results
count_results (i ∷ ids) results = length (keep (λ a. member a (i ∷ ids)) results)

-- `coverage_pct >= min`, `coverage_pct >= min * 0.8`, and below.
abbrev pub coverage_status : Host → ℕ → ℕ → ℕ → CheckStatus
coverage_status host min_pct classified total =
    if host.percent_ge classified total min_pct
    then passed
    else if host.percent_ge_most classified total min_pct
    then warning
    else failed

abbrev pub coverage_violation : Host → ℕ → ℕ → ℕ → ComplianceViolation
coverage_violation host min_pct classified total = record {
  agent_id = "aggregate";
  agent_hostname = "fleet-wide";
  violation_detail = f_string (
      host.digits (total - classified)
      ∷ " agent(s) lack classification results ("
      ∷ host.percent classified total
      ∷ "% coverage, minimum "
      ∷ host.digits min_pct
      ∷ "%)"
      ∷ []);
  app_name = none;
  app_version = none;
  remediation = "Run a classification sweep to classify unprocessed agents";
}

module _ (host : Host) (fleet : Fleet) (now : ℕ) (ps : Parameters) (f : ScopeFilter) where
  unfoldable pub classification_coverage : Findings
  classification_coverage =
      let min_pct = host.get_number "min_classified_percent" 90 ps in
      let scoped = in_scope host f fleet in
      let total = length scoped in
      let classified = count_results (map source_id_of scoped) fleet.classification_agent_ids in
      if total == 0 then not_applicable_result now no_agents else record {
        status = coverage_status host min_pct classified total;
        checked_at = now;
        total_endpoints = total;
        compliant_endpoints = classified;
        non_compliant_endpoints = total - classified;
        violations =
            if ltb 0 (total - classified)
            then coverage_violation host min_pct classified total ∷ []
            else [];
        evidence_summary = f_string (
            host.digits classified
            ∷ "/"
            ∷ host.digits total
            ∷ " agents classified ("
            ∷ host.percent classified total
            ∷ "% coverage, threshold "
            ∷ host.digits min_pct
            ∷ "%)"
            ∷ []);
      }
