-- ===== src/Compliance/Checks/Verdicts.antt =====
-- What the executors over agents decide (backend/domains/compliance/checks).
use sentora.Prelude.{
  ap, subst, sym, Bool-cases, none, some, List, arith, false, inl, inr, keep, length, map, not,
  refl, str_eq, true, ℕ, ◌==◌, ◌≡◌,
}
use sentora.Collections.{Distinct}
use sentora.Collections.Uniqueness.{Distinct-keep}
use sentora.Compliance.Checks.{Endpoint, Fleet, Host, in_scope, installed, source_id_of}
use sentora.Compliance.Checks.Agents.{
  agent_online, agents_below, execute_agent_version, is_below, is_offline, offline_violation,
  version_violation,
}
use sentora.Compliance.Checks.Apps.{
  custom_app_presence, custom_violations, has_app, lists_apps, missing_violation, prohibited_app,
  prohibited_names, prohibited_violation, prohibited_violations, required_app, required_violations,
}
use sentora.Compliance.Checks.Expected.{
  AgentCheck, check_name, configured, custom-Names, custom-nil, custom_check, flags,
  none_prohibited, online_check, prohibited-none, prohibited_check, required_check, run_executor,
  threshold_check, version_check,
}
use sentora.Compliance.Checks.Failing.{IsTally-cong, fails, flags-fails}
use sentora.Compliance.Checks.Inventory.{
  classified_apps, exceeds, threshold_violation, unclassified_threshold,
}
use sentora.Compliance.Checks.Registry.{as_executor, registered_executor}
use sentora.Compliance.Checks.Tally.{
  IsTally, gather_all-IsTally, gather_all-keep, ids-map, is_nil-map-keep, map-IsTally,
  nothing-IsTally, once-IsTally,
}
use sentora.Compliance.Engine.{ResolvedControl}
use sentora.Compliance.Entities.{Parameters}
use sentora.Compliance.Sharing.{Findings, label}
use sentora.Dicts.{set}
use sentora.Scope.{ScopeFilter, member}

module _ (host : Host) (fleet : Fleet) (now : ℕ) (ps : Parameters) (f : ScopeFilter)
    (apart : Distinct source_id_of fleet.agents)
    (some_agents : (length (in_scope host f fleet) == 0) ≡ false) where
  abbrev scoped : List Endpoint
  scoped = in_scope host f fleet

  apart_in_scope : Distinct source_id_of scoped
  apart_in_scope = Distinct-keep source_id_of (host.matches f) fleet.agents apart

  online-IsTally :
      IsTally (flags host fleet now ps online_check) scoped (agent_online host fleet now ps f)
  unfolding agent_online
  online-IsTally =
      let max_offline_days = host.get_number "max_offline_days" 7 ps in
      rw (agent_online, some_agents)
        (map-IsTally now (is_offline now max_offline_days) (offline_violation host max_offline_days)
          scoped _)

  version-IsTally :
      str_eq (host.get_text "min_version" ps) "" ≡ false
      → IsTally
          (flags host fleet now ps version_check)
          scoped
          (execute_agent_version host fleet now ps f)
  unfolding execute_agent_version agents_below
  version-IsTally set =
      let min_version = host.get_text "min_version" ps in
      rw (execute_agent_version, some_agents, set, agents_below)
        (map-IsTally now (is_below host min_version) (version_violation host min_version) scoped _)

  required-IsTally :
      (length (host.get_texts "required_apps" ps) == 0) ≡ false
      → IsTally (flags host fleet now ps required_check) scoped (required_app host fleet now ps f)
  unfolding required_app
  required-IsTally set =
      let apps = host.get_texts "required_apps" ps in
      rw (required_app, set, some_agents)
        (gather_all-IsTally now (flags host fleet now ps required_check)
          (required_violations host apps) scoped _
          (λ e.
            ids-map (source_id_of e) (λ r. missing_violation r e)
              (keep (λ r. not (has_app host r e)) apps) (λ r. refl))
          (λ e. is_nil-map-keep (λ r. missing_violation r e) (λ r. not (has_app host r e)) apps)
          apart_in_scope)

  custom-IsTally :
      str_eq (host.get_text "app_pattern" ps) "" ≡ false
      → IsTally
          (flags host fleet now ps custom_check)
          scoped
          (custom_app_presence host fleet now ps f)
  unfolding custom_app_presence
  custom-IsTally set =
      let p = host.get_text "app_pattern" ps in
      let must_exist = host.get_flag "must_exist" true ps in
      rw (custom_app_presence, set, some_agents)
        (gather_all-IsTally now (flags host fleet now ps custom_check)
          (custom_violations host p must_exist) scoped _ (custom-Names host p must_exist)
          (custom-nil host p must_exist) apart_in_scope)

  threshold-IsTally :
      IsTally
        (flags host fleet now ps threshold_check)
        scoped
        (unclassified_threshold host fleet now ps f)
  unfolding unclassified_threshold
  threshold-IsTally =
      let max_pct = host.get_number "max_unclassified_percent" 10 ps in
      let names = classified_apps fleet in
      rw (unclassified_threshold, some_agents)
        (once-IsTally now (exceeds host max_pct names) (threshold_violation host max_pct names)
          scoped _ (λ e. refl) apart_in_scope)

  prohibited-IsTally :
      IsTally (flags host fleet now ps prohibited_check) scoped (prohibited_app host fleet now ps f)
  unfolding prohibited_app
  prohibited-IsTally =
      let names = prohibited_names fleet in
      let lowered = map host.lower names in
      let g = prohibited_violations host lowered in
      let bad = flags host fleet now ps prohibited_check in
      elim (Bool-cases (length names == 0)) [
        | inl no_names ↦
            rw (prohibited_app, some_agents, no_names)
              (nothing-IsTally now bad scoped _ (none_prohibited host names no_names))
        | inr named ↦
            let all = gather_all-keep lists_apps g scoped (prohibited-none host lowered) in
            rw (prohibited_app, some_agents, named, all)
              (gather_all-IsTally now bad g scoped _
                (λ e.
                  ids-map (source_id_of e) (λ app. prohibited_violation app e)
                    (keep (λ app. member (host.lower app) lowered) (installed e)) (λ r. refl))
                (λ e.
                  is_nil-map-keep (λ app. prohibited_violation app e)
                    (λ app. member (host.lower app) lowered) (installed e))
                apart_in_scope)
      ]

  -- An executor that raises nothing labels what it finds; what its loop collects is what has to fail.
  answered :
      (c : ResolvedControl)
      → c.parameters ≡ ps
      → host.raised c.check_type ps f ≡ none
      → (find : Parameters → ScopeFilter → Findings) (k : AgentCheck)
      → registered_executor host fleet now (check_name k) ≡ some (as_executor host find)
      → IsTally (flags host fleet now ps k) scoped (find ps f)
      → (r : Findings) × (run_executor host fleet now (check_name k) c f ≡ label c (inr r))
        × IsTally (fails host fleet now ps k) scoped r
  answered c p fine find k found t =
      let read = subst (λ q. host.raised c.check_type q f ≡ none) (sym p) fine in
      (
        find ps f,
        rw (run_executor, found, read) (ap (λ q. label c (inr (find q f))) p),
        IsTally-cong (flags-fails host fleet now ps k) t,
      )

  -- Each of the six executors that look at every agent in scope, with parameters that say what to look
  -- for and a scope that holds agents, no two of one id, returns, unless it raises an exception, a result
  -- of the control that counts the agents in scope, those that fail the check and those that do not; it
  -- is a pass exactly when none fails, and lists at most 10,000 violations. An agent that was never active
  -- does not fail the online check, and of the rows of prohibited applications the first 10,000 count.
  pub run_executor-IsTally :
      (k : AgentCheck) (c : ResolvedControl)
      → c.parameters ≡ ps
      → configured host ps k ≡ true
      → host.raised c.check_type ps f ≡ none
      → (r : Findings) × (run_executor host fleet now (check_name k) c f ≡ label c (inr r))
        × IsTally (fails host fleet now ps k) scoped r
  unfolding registered_executor
  run_executor-IsTally online_check c p set fine =
      answered c p fine (agent_online host fleet now) online_check refl (online-IsTally)
  run_executor-IsTally version_check c p set fine =
      answered c p fine (execute_agent_version host fleet now) version_check refl
        (version-IsTally (ground (arith, set)))
  run_executor-IsTally required_check c p set fine =
      answered c p fine (required_app host fleet now) required_check refl
        (required-IsTally (ground (arith, set)))
  run_executor-IsTally custom_check c p set fine =
      answered c p fine (custom_app_presence host fleet now) custom_check refl
        (custom-IsTally (ground (arith, set)))
  run_executor-IsTally prohibited_check c p set fine =
      answered c p fine (prohibited_app host fleet now) prohibited_check refl (prohibited-IsTally)
  run_executor-IsTally threshold_check c p set fine =
      answered c p fine (unclassified_threshold host fleet now) threshold_check refl
        (threshold-IsTally)
