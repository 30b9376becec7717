-- ===== src/Compliance/Checks/Inventory.antt =====
-- The executors unclassified_threshold.py and sync_freshness.py of
-- backend/domains/compliance/checks.
use sentora.Prelude.{
  Bool, List, Option, String, [], false, if◌then◌else◌, keep, leb, length, ltb, map, none, not,
  some, str_eq, ℕ, ◌*◌, ◌+◌, ◌-◌, ◌==◌, ◌∷◌,
}
use sentora.Compliance.Checks.{
  Endpoint, Fleet, Host, SyncRun, agent_ids, f_string, hostname_of, in_scope, installed, no_agents,
  not_applicable_result, percent_over, source_id_of, tally,
}
use sentora.Compliance.Entities.{CheckStatus, ComplianceViolation, Parameters, failed, passed}
use sentora.Compliance.Sharing.{Findings}
use sentora.Enforcement.Verdicts.{compliant}
use sentora.Enforcement.Violations.{distinct}
use sentora.Eol.Entities.{AppSummary}
use sentora.Scope.{ScopeFilter, member}

-- `{"category": {"$nin": [None, ""]}}`
abbrev pub is_classified : AppSummary → Bool
is_classified s = elim s.category [ none ↦ false | some c ↦ not (str_eq c "") ]

abbrev pub classified_apps : Fleet → List String
classified_apps fleet = map (λ s. s.normalized_name) (keep is_classified fleet.app_summaries)

-- The applications of an agent that are not classified.
abbrev pub unclassified : List String → Endpoint → List String
unclassified names e = keep (λ app. not (member app names)) (installed e)

abbrev pub exceeds : Host → ℕ → List String → Endpoint → Bool
exceeds host max_pct names e =
    percent_over host (length (unclassified names e)) (length (installed e)) max_pct

abbrev pub threshold_violation : Host → ℕ → List String → Endpoint → ComplianceViolation
threshold_violation host max_pct names e = record {
  agent_id = source_id_of e;
  agent_hostname = hostname_of e;
  violation_detail = f_string (
      host.digits (length (unclassified names e))
      ∷ "/"
      ∷ host.digits (length (installed e))
      ∷ " apps unclassified ("
      ∷ host.percent (length (unclassified names e)) (length (installed e))
      ∷ "%, threshold "
      ∷ host.digits max_pct
      ∷ "%)"
      ∷ []);
  app_name = none;
  app_version = none;
  remediation = "Review and classify unrecognised applications on this endpoint";
}

abbrev pub sync_violation : String → String → String → String → ComplianceViolation
sync_violation agent_id agent_hostname detail remediation = record {
  agent_id = agent_id;
  agent_hostname = agent_hostname;
  violation_detail = detail;
  app_name = none;
  app_version = none;
  remediation = remediation;
}

-- The latest completed run.
abbrev pub latest_sync : List SyncRun → Option ℕ
latest_sync [] = none
latest_sync (r ∷ rs) =
    let rest = latest_sync rs in
    if str_eq r.status "completed"
    then elim rest [
      | none ↦ some r.completed_at
      | some t ↦ some (if ltb t r.completed_at then r.completed_at else t)
    ]
    else rest

module _ (host : Host) (fleet : Fleet) (now : ℕ) (ps : Parameters) (f : ScopeFilter) where
  unfoldable pub unclassified_threshold : Findings
  unclassified_threshold =
      let scoped = in_scope host f fleet in
      let total = length scoped in
      let max_pct = host.get_number "max_unclassified_percent" 10 ps in
      let names = classified_apps fleet in
      let vs =
        map (threshold_violation host max_pct names) (keep (exceeds host max_pct names) scoped) in
      let non_compliant = length (distinct (agent_ids vs)) in
      if total == 0
      then not_applicable_result now no_agents
      else tally now total non_compliant vs (
          f_string (
            host.digits (total - non_compliant)
            ∷ "/"
            ∷ host.digits total
            ∷ " endpoints below "
            ∷ host.digits max_pct
            ∷ "% unclassified app threshold. "
            ∷ host.digits non_compliant
            ∷ " endpoint(s) exceed threshold."
            ∷ []))

  abbrev freshness : CheckStatus → ℕ → List ComplianceViolation → String → Findings
  freshness status compliant vs summary = record {
    status = status;
    checked_at = now;
    total_endpoints = 1;
    compliant_endpoints = compliant;
    non_compliant_endpoints = 1 - compliant;
    violations = vs;
    evidence_summary = summary;
  }

  unfoldable pub sync_freshness : Findings
  sync_freshness =
      let max_hours = host.get_number "max_hours_since_sync" 24 ps in
      elim (latest_sync fleet.sync_runs) [
        | none ↦
            freshness failed 0
              (sync_violation "system" "sentora" "No successful data sync has ever completed"
                  "Trigger a full data sync from the Sync page"
                ∷ [])
              "No completed sync runs found — data inventory not populated"
        | some t ↦
            if leb now (t + max_hours * 3600)
            then freshness passed 1 [] (
                f_string (
                  "Last sync completed at "
                  ∷ host.isoformat t
                  ∷ " (within "
                  ∷ host.digits max_hours
                  ∷ "h window). "
                  ∷ host.digits (length (in_scope host f fleet))
                  ∷ " agents in inventory."
                  ∷ []))
            else freshness failed 0
                (sync_violation "system" "sentora"
                    (f_string (
                      "Data is "
                      ∷ host.hours (now - t)
                      ∷ "h old (threshold: "
                      ∷ host.digits max_hours
                      ∷ "h)"
                      ∷ []))
                    "Trigger a data sync to refresh the inventory"
                  ∷ [])
                (f_string (
                  "Last sync completed "
                  ∷ host.hours (now - t)
                  ∷ "h ago at "
                  ∷ host.isoformat t
                  ∷ " — exceeds "
                  ∷ host.digits max_hours
                  ∷ "h threshold"
                  ∷ []))
      ]
