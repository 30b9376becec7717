-- ===== src/Compliance/Checks/Agents.antt =====
-- The executors agent_online.py and agent_version.py of backend/domains/compliance/checks.
use sentora.Prelude.{
  Bool, List, String, [], false, if◌then◌else◌, keep, length, ltb, map, none, not, some, str_eq,
  true, ℕ, ◌&&◌, ◌*◌, ◌+◌, ◌-◌, ◌==◌, ◌∷◌,
}
use sentora.Compliance.Checks.{
  Endpoint, Fleet, Host, f_string, hostname_of, in_scope, no_agents, not_applicable_result,
  source_id_of, tally,
}
use sentora.Compliance.Entities.{ComplianceViolation, Parameters, warning}
use sentora.Compliance.Sharing.{Findings}
use sentora.Scope.{ScopeFilter}

-- `<` of Python on tuples.
abbrev pub tuple_lt : List ℕ → List ℕ → Bool
tuple_lt [] [] = false
tuple_lt [] (y ∷ ys) = true
tuple_lt (x ∷ xs) [] = false
tuple_lt (x ∷ xs) (y ∷ ys) =
    let rest = tuple_lt xs ys in if ltb x y then true else if ltb y x then false else rest

-- `_version_tuple`
abbrev pub version_tuple : Host → String → List ℕ
version_tuple host version =
    map (λ s. elim (host.to_int s) [ none ↦ 0 | some n ↦ n ]) (host.split_dots version)

-- `{"last_active": {"$lt": cutoff}}`, which a missing date does not satisfy.
abbrev pub is_offline : ℕ → ℕ → Endpoint → Bool
is_offline now max_offline_days e = elim e.last_active [
  | none ↦ false
  | some t ↦ ltb (t + max_offline_days * 86400) now
]

-- An agent with no version is passed over.
abbrev pub is_below : Host → String → Endpoint → Bool
is_below host min_version e = elim e.agent_version [
  | none ↦ false
  | some v ↦ not (str_eq v "") && tuple_lt (version_tuple host v) (version_tuple host min_version)
]

module _ (host : Host) where
  abbrev pub offline_violation : ℕ → Endpoint → ComplianceViolation
  offline_violation max_offline_days e =
      let since : String = elim e.last_active [ none ↦ "never" | some t ↦ host.isoformat t ] in
      record {
        agent_id = source_id_of e;
        agent_hostname = hostname_of e;
        violation_detail =
            f_string (
              "Agent offline since "
              ∷ since
              ∷ " (>"
              ∷ host.digits max_offline_days
              ∷ " days)"
              ∷ []);
        app_name = none;
        app_version = none;
        remediation =
            f_string ("Investigate endpoint " ∷ hostname_of e ∷ " — last check-in " ∷ since ∷ []);
      }

  abbrev pub version_violation : String → Endpoint → ComplianceViolation
  version_violation min_version e =
      let v : String = elim e.agent_version [ none ↦ "" | some v ↦ v ] in
      record {
        agent_id = source_id_of e;
        agent_hostname = hostname_of e;
        violation_detail =
            f_string ("Agent version " ∷ v ∷ " is below minimum " ∷ min_version ∷ []);
        app_name = none;
        app_version = none;
        remediation = f_string (
            "Update agent on "
            ∷ hostname_of e
            ∷ " from "
            ∷ v
            ∷ " to "
            ∷ min_version
            ∷ " or later"
            ∷ []);
      }

module _ (host : Host) (fleet : Fleet) (now : ℕ) (ps : Parameters) (f : ScopeFilter) where
  unfoldable pub agent_online : Findings
  agent_online =
      let scoped = in_scope host f fleet in
      let total = length scoped in
      let max_offline_days = host.get_number "max_offline_days" 7 ps in
      let vs =
        map (offline_violation host max_offline_days)
          (keep (is_offline now max_offline_days) scoped) in
      let non_compliant = length vs in
      if total == 0
      then not_applicable_result now no_agents
      else tally now total non_compliant vs (
          f_string (
            host.digits (total - non_compliant)
            ∷ "/"
            ∷ host.digits total
            ∷ " agents active within "
            ∷ host.digits max_offline_days
            ∷ " days. "
            ∷ host.digits non_compliant
            ∷ " agent(s) stale."
            ∷ []))

  -- The loop of `agent_version` for a minimum, and its result.
  unfoldable pub agents_below : String → Findings
  agents_below min_version =
      let scoped = in_scope host f fleet in
      let total = length scoped in
      let vs = map (version_violation host min_version) (keep (is_below host min_version) scoped) in
      let non_compliant = length vs in
      tally now total non_compliant vs (
        f_string (
          host.digits (total - non_compliant)
          ∷ "/"
          ∷ host.digits total
          ∷ " agents at version "
          ∷ min_version
          ∷ " or later. "
          ∷ host.digits non_compliant
          ∷ " agent(s) outdated."
          ∷ []))

  abbrev undetermined : ℕ → Findings
  undetermined total = record {
    status = warning;
    checked_at = now;
    total_endpoints = total;
    compliant_endpoints = 0;
    non_compliant_endpoints = 0;
    violations = [];
    evidence_summary = "Could not determine baseline agent version";
  }

  unfoldable pub execute_agent_version : Findings
  execute_agent_version =
      let total = length (in_scope host f fleet) in
      let min_version = host.get_text "min_version" ps in
      let baseline : Findings = elim (host.most_common_version f fleet) [
        | none ↦ undetermined total
        | some v ↦ if str_eq v "" then undetermined total else agents_below v
      ] in
      if total == 0
      then not_applicable_result now no_agents
      else if str_eq min_version ""
      then baseline
      else agents_below min_version
