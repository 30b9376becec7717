-- ===== src/Compliance/Checks/Recent.antt =====
-- The executor delta_detection.py of backend/domains/compliance/checks. The rows of installed_apps are of
-- agents in the collection.
use sentora.Prelude.{
  Bool, List, String, [], false, if◌then◌else◌, keep, leb, length, map, none, some, take, true, ℕ,
  ◌&&◌, ◌*◌, ◌+◌, ◌-◌, ◌==◌, ◌∷◌,
}
use sentora.Compliance.Checks.{
  Endpoint, Fleet, Host, InstalledApp, RowGroup, cap, f_string, gather_all, group_by, in_scope,
  no_agents, not_applicable_result, shown, source_id_of,
}
use sentora.Compliance.Checks.EndOfLife.{resolve}
use sentora.Compliance.Entities.{ComplianceViolation, Parameters, passed, warning}
use sentora.Compliance.Sharing.{Findings}
use sentora.Enforcement.Violations.{distinct}
use sentora.Scope.{ScopeFilter, all_of, everything, member, one}

-- The ids that the query names; without a scope it names none.
abbrev pub named_ids : ScopeFilter → List Endpoint → List String
named_ids everything scoped = []
named_ids (one c) scoped = map source_id_of scoped
named_ids (all_of cs) scoped = map source_id_of scoped

-- `{"last_synced_at": {"$gte": cutoff}}`, with the ids if there are some.
abbrev pub is_recent : ℕ → ℕ → InstalledApp → Bool
is_recent now hours r = elim r.last_synced_at [ none ↦ false | some t ↦ leb now (t + hours * 3600) ]

abbrev pub of_ids : List String → InstalledApp → Bool
of_ids [] r = true
of_ids (i ∷ ids) r = member r.agent_id (i ∷ ids)

abbrev pub recent_rows : ℕ → ℕ → List String → Fleet → List InstalledApp
recent_rows now hours ids fleet =
    keep (λ r. is_recent now hours r && of_ids ids r) fleet.installed_apps

abbrev pub agent_of : RowGroup → String
agent_of g = elim g.group_id [ none ↦ "" | some a ↦ a ]

-- The groups that the aggregation returns: a hundred at most. It does not run when there are no rows.
abbrev pub reported : Host → List InstalledApp → List RowGroup
reported host [] = []
reported host (r ∷ rs) = take 100 (host.sort_by_count (group_by (λ x. some x.agent_id) (r ∷ rs) []))

abbrev pub delta_violation : Fleet → InstalledApp → ComplianceViolation
delta_violation fleet r =
    let hostname = resolve fleet.agents r.agent_id in
    record {
      agent_id = r.agent_id;
      agent_hostname = hostname;
      violation_detail =
          f_string
            ("New application detected: '" ∷ r.normalized_name ∷ "' v" ∷ shown r.version ∷ []);
      app_name = some r.normalized_name;
      app_version = r.version;
      remediation =
          f_string ("Review and classify '" ∷ r.normalized_name ∷ "' on " ∷ hostname ∷ []);
    }

-- Ten applications of an agent at most.
abbrev pub delta_violations : Fleet → RowGroup → List ComplianceViolation
delta_violations fleet g = map (delta_violation fleet) (take 10 g.rows)

module _ (host : Host) (fleet : Fleet) (now : ℕ) (ps : Parameters) (f : ScopeFilter) where
  unfoldable pub delta_detection : Findings
  delta_detection =
      let hours = host.get_number "lookback_hours" 24 ps in
      let scoped = in_scope host f fleet in
      let total = length scoped in
      let rows = recent_rows now hours (named_ids f scoped) fleet in
      let groups = reported host rows in
      let non_compliant = length (distinct (map agent_of groups)) in
      if total == 0 then not_applicable_result now no_agents else record {
        status = if length rows == 0 then passed else warning;
        checked_at = now;
        total_endpoints = total;
        compliant_endpoints = total - non_compliant;
        non_compliant_endpoints = non_compliant;
        violations = cap (gather_all (delta_violations fleet) groups);
        evidence_summary = f_string (
            host.digits (length rows)
            ∷ " new application(s) detected across "
            ∷ host.digits non_compliant
            ∷ " endpoint(s) in the last "
            ∷ host.digits hours
            ∷ "h. "
            ∷ host.digits (total - non_compliant)
            ∷ "/"
            ∷ host.digits total
            ∷ " endpoints unchanged."
            ∷ []);
      }
