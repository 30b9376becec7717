-- ===== src/Compliance/Checks/Outdated.antt =====
-- The executor app_version.py of backend/domains/compliance/checks. The groups of applications come in
-- the order of their first rows.
use sentora.Prelude.{
  List, Option, String, [], if◌then◌else◌, keep, length, ltb, map, opt_eq, some, str_eq, ℕ, ◌-◌,
  ◌==◌, ◌∷◌,
}
use sentora.Compliance.Checks.{
  Fleet, Host, InstalledApp, RowGroup, agent_ids, cap, f_string, gather_all, group_by, in_scope,
  no_agents, not_applicable_result, percent_over, shown, source_id_of,
}
use sentora.Compliance.Checks.EndOfLife.{resolve}
use sentora.Compliance.Entities.{
  CheckStatus, ComplianceViolation, Parameters, failed, passed, warning,
}
use sentora.Compliance.Sharing.{Findings}
use sentora.Enforcement.Violations.{distinct}
use sentora.Scope.{ScopeFilter, member}

abbrev pub app_names : List InstalledApp → List String
app_names rows = distinct (map (λ r. r.normalized_name) rows)

-- The versions of an application, the most common first.
abbrev pub all_versions : Host → List InstalledApp → String → List RowGroup
all_versions host rows app =
    host.sort_by_count
      (group_by (λ r. r.version) (keep (λ r. str_eq r.normalized_name app) rows) [])

abbrev pub version_row : Fleet → Option String → InstalledApp → ComplianceViolation
version_row fleet top r = record {
  agent_id = r.agent_id;
  agent_hostname = resolve fleet.agents r.agent_id;
  violation_detail = f_string (
      "'"
      ∷ r.normalized_name
      ∷ "' version "
      ∷ shown r.version
      ∷ " installed, fleet standard is "
      ∷ shown top
      ∷ []);
  app_name = some r.normalized_name;
  app_version = r.version;
  remediation = f_string ("Update '" ∷ r.normalized_name ∷ "' to version " ∷ shown top ∷ []);
}

-- The rows of every version but the most common one, of an application with at least two.
abbrev pub other_versions : Fleet → List RowGroup → List ComplianceViolation
other_versions fleet [] = []
other_versions fleet (top ∷ gs) =
    if ltb 1 (length (top ∷ gs))
    then gather_all
        (λ g.
          if opt_eq g.group_id top.group_id
          then []
          else map (version_row fleet top.group_id) g.rows)
        (top ∷ gs)
    else []

abbrev pub outdated_status : Host → ℕ → ℕ → ℕ → CheckStatus
outdated_status host max_pct non_compliant total =
    if non_compliant == 0
    then passed
    else if percent_over host non_compliant total max_pct
    then failed
    else warning

module _ (host : Host) (fleet : Fleet) (now : ℕ) (ps : Parameters) (f : ScopeFilter) where
  unfoldable pub outdated_apps : Findings
  outdated_apps =
      let max_pct = host.get_number "max_outdated_percent" 20 ps in
      let scoped = in_scope host f fleet in
      let total = length scoped in
      let rows = keep (λ r. member r.agent_id (map source_id_of scoped)) fleet.installed_apps in
      let vs =
        gather_all (λ app. other_versions fleet (all_versions host rows app)) (app_names rows) in
      let non_compliant = length (distinct (agent_ids vs)) in
      if total == 0 then not_applicable_result now no_agents else record {
        status = outdated_status host max_pct non_compliant total;
        checked_at = now;
        total_endpoints = total;
        compliant_endpoints = total - non_compliant;
        non_compliant_endpoints = non_compliant;
        violations = cap vs;
        evidence_summary = f_string (
            host.digits (total - non_compliant)
            ∷ "/"
            ∷ host.digits total
            ∷ " endpoints running current app versions. "
            ∷ host.digits non_compliant
            ∷ " endpoint(s) with outdated software ("
            ∷ host.percent non_compliant total
            ∷ "%)."
            ∷ []);
      }
