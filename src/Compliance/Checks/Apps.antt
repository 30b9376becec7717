-- ===== src/Compliance/Checks/Apps.antt =====
-- The executors required_app.py, custom_app_presence.py and prohibited_app.py of
-- backend/domains/compliance/checks.
use sentora.Prelude.{
  Bool, List, String, [], any, false, if◌then◌else◌, keep, length, map, none, not, some, str_eq,
  take, true, ℕ, ◌-◌, ◌==◌, ◌∷◌,
}
use sentora.Compliance.Checks.{
  Endpoint, Fleet, Host, agent_ids, cap, f_string, gather_all, hostname_of, in_scope, installed,
  no_agents, not_applicable_result, source_id_of, tally,
}
use sentora.Compliance.Entities.{ComplianceViolation, Parameters}
use sentora.Compliance.Sharing.{Findings}
use sentora.Enforcement.Violations.{distinct}
use sentora.Scope.{ScopeFilter, member}

abbrev pub app_violation : String → String → String → Endpoint → ComplianceViolation
app_violation app detail remediation e = record {
  agent_id = source_id_of e;
  agent_hostname = hostname_of e;
  violation_detail = detail;
  app_name = some app;
  app_version = none;
  remediation = remediation;
}

-- `any(pattern.search(name) for name in installed)`
abbrev pub has_app : Host → String → Endpoint → Bool
has_app host required e = any (host.search required) (installed e)

abbrev pub matches_glob : Host → String → Endpoint → Bool
matches_glob host app_pattern e = any (host.search_glob app_pattern) (installed e)

abbrev pub missing_violation : String → Endpoint → ComplianceViolation
missing_violation required e =
    app_violation required (f_string ("Required application '" ∷ required ∷ "' not found" ∷ []))
      (f_string ("Install '" ∷ required ∷ "' on endpoint " ∷ hostname_of e ∷ [])) e

-- The violations of one agent: its missing applications.
abbrev pub required_violations : Host → List String → Endpoint → List ComplianceViolation
required_violations host required_apps e =
    map (λ r. missing_violation r e) (keep (λ r. not (has_app host r e)) required_apps)

-- Those of `custom_app_presence`: the pattern that is not found, or each name that is.
abbrev pub custom_violations : Host → String → Bool → Endpoint → List ComplianceViolation
custom_violations host app_pattern true e =
    if matches_glob host app_pattern e
    then []
    else app_violation app_pattern
        (f_string ("Required application matching '" ∷ app_pattern ∷ "' not found" ∷ []))
        (f_string
          ("Install an application matching '" ∷ app_pattern ∷ "' on " ∷ hostname_of e ∷ []))
        e
      ∷ []
custom_violations host app_pattern false e =
    map
      (λ name.
        app_violation name
          (f_string (
            "Disallowed application '" ∷ name ∷ "' found (matches pattern '" ∷ app_pattern ∷ "')"
            ∷ []))
          (f_string ("Remove '" ∷ name ∷ "' from " ∷ hostname_of e ∷ [])) e)
      (keep (host.search_glob app_pattern) (installed e))

abbrev pub prohibited_violation : String → Endpoint → ComplianceViolation
prohibited_violation app e =
    app_violation app (f_string ("Prohibited application '" ∷ app ∷ "' installed" ∷ []))
      (f_string ("Uninstall '" ∷ app ∷ "' from endpoint " ∷ hostname_of e ∷ [])) e

abbrev pub prohibited_violations : Host → List String → Endpoint → List ComplianceViolation
prohibited_violations host prohibited_lower e =
    map (λ app. prohibited_violation app e)
      (keep (λ app. member (host.lower app) prohibited_lower) (installed e))

-- `{"installed_app_names": {"$exists": True}}`
abbrev pub lists_apps : Endpoint → Bool
lists_apps e = elim e.agent.installed_app_names [ none ↦ false | some xs ↦ true ]

-- `.limit(10_000)` on the rows of prohibited applications.
abbrev pub prohibited_limit : ℕ
prohibited_limit = 10000

abbrev pub prohibited_names : Fleet → List String
prohibited_names fleet =
    map (λ a. a.normalized_name)
      (take prohibited_limit (keep (λ a. str_eq a.risk_level "prohibited") fleet.installed_apps))

module _ (host : Host) (fleet : Fleet) (now : ℕ) (ps : Parameters) (f : ScopeFilter) where
  unfoldable pub required_app : Findings
  required_app =
      let scoped = in_scope host f fleet in
      let total = length scoped in
      let required_apps = host.get_texts "required_apps" ps in
      let vs = gather_all (required_violations host required_apps) scoped in
      let non_compliant = length (distinct (agent_ids vs)) in
      if length required_apps == 0
      then not_applicable_result now "No required applications configured"
      else if total == 0
      then not_applicable_result now no_agents
      else tally now total non_compliant vs (
          f_string (
            host.digits (total - non_compliant)
            ∷ "/"
            ∷ host.digits total
            ∷ " endpoints have all "
            ∷ host.digits (length required_apps)
            ∷ " required application(s). "
            ∷ host.digits (length (cap vs))
            ∷ " missing installation(s) across "
            ∷ host.digits non_compliant
            ∷ " endpoint(s)."
            ∷ []))

  unfoldable pub custom_app_presence : Findings
  custom_app_presence =
      let scoped = in_scope host f fleet in
      let total = length scoped in
      let app_pattern = host.get_text "app_pattern" ps in
      let must_exist = host.get_flag "must_exist" true ps in
      let vs = gather_all (custom_violations host app_pattern must_exist) scoped in
      let non_compliant = length (distinct (agent_ids vs)) in
      if str_eq app_pattern ""
      then not_applicable_result now
          "No app_pattern configured — configure this control in Compliance > Settings to specify the application to check"
      else if total == 0
      then not_applicable_result now no_agents
      else tally now total non_compliant vs (
          f_string (
            host.digits (total - non_compliant)
            ∷ "/"
            ∷ host.digits total
            ∷ " endpoints: '"
            ∷ app_pattern
            ∷ "' is "
            ∷ (if must_exist then "present" else "absent")
            ∷ ". "
            ∷ host.digits non_compliant
            ∷ " non-compliant endpoint(s)."
            ∷ []))

  unfoldable pub prohibited_app : Findings
  prohibited_app =
      let scoped = in_scope host f fleet in
      let total = length scoped in
      let names = prohibited_names fleet in
      let vs =
        gather_all (prohibited_violations host (map host.lower names)) (keep lists_apps scoped) in
      let non_compliant = length (distinct (agent_ids vs)) in
      if total == 0
      then not_applicable_result now no_agents
      else if length names == 0
      then tally now total 0 [] (
          f_string (
            host.digits total
            ∷ "/"
            ∷ host.digits total
            ∷ " endpoints free of prohibited software."
            ∷ []))
      else tally now total non_compliant vs (
          f_string (
            host.digits (total - non_compliant)
            ∷ "/"
            ∷ host.digits total
            ∷ " endpoints free of prohibited software. "
            ∷ host.digits (length (cap vs))
            ∷ " violation(s) found on "
            ∷ host.digits non_compliant
            ∷ " endpoint(s)."
            ∷ []))
