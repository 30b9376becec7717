-- ===== src/Compliance/Checks/Limits.antt =====
-- How many agents delta_detection.py of backend/domains/compliance/checks reports.
use sentora.Prelude.{
  List, String, [], arith, false, if◌then◌else◌, length, length-take, map, refl, some, suc, ℕ, ◌+◌,
  ◌==◌, ◌∷◌, ◌≡◌, ◌≤◌, ◌↔◌,
}
use sentora.Compliance.Checks.{Fleet, Host, InstalledApp, group_by, in_scope}
use sentora.Compliance.Checks.Recent.{agent_of, delta_detection, named_ids, recent_rows, reported}
use sentora.Compliance.Checks.Tally.{length-map_lem}
use sentora.Compliance.Entities.{Parameters, passed, warning}
use sentora.Enforcement.Violations.{distinct}
use sentora.Scope.{ScopeFilter}

length-distinct : (xs : List String) → length (distinct xs) ≤ length xs
length-distinct [] = omega arith
length-distinct (x ∷ xs) = ground (arith, length-distinct xs)

reported-length : (host : Host) (rows : List InstalledApp) → length (reported host rows) ≤ 100
reported-length host [] = omega arith
reported-length host (r ∷ rs) =
    let sorted = host.sort_by_count (group_by (λ x. some x.agent_id) (r ∷ rs) []) in
    omega (arith, length-take 100 sorted)

suc_nonzero : (n : ℕ) → (suc n == 0) ≡ false
suc_nonzero n = ground arith

passes_iff :
    (rows : List InstalledApp)
    → ((if length rows == 0 then passed else warning) ≡ passed) ↔ (rows ≡ [])
passes_iff [] = ((λ e. refl), (λ e. refl))
passes_iff (r ∷ rs) = (
  (λ e. let wrong : warning ≡ passed = rw (suc_nonzero (length rs)) at e in cc wrong),
  (λ e. cc e),
)

module _ (host : Host) (fleet : Fleet) (now : ℕ) (ps : Parameters) (f : ScopeFilter) where
  -- The rows of applications that were seen within the window.
  abbrev pub new_rows : List InstalledApp
  new_rows =
      recent_rows now (host.get_number "lookback_hours" 24 ps) (named_ids f (in_scope host f fleet))
        fleet

  reported_agents : length (distinct (map agent_of (reported host new_rows))) ≤ 100
  reported_agents = omega (
    arith,
    length-distinct (map agent_of (reported host new_rows)),
    length-map_lem agent_of (reported host new_rows),
    reported-length host new_rows,
  )

  -- With agents in scope, the check for new applications reports at most 100 agents as non-compliant
  -- and all the others as compliant, however many have new applications; and it passes exactly when
  -- there is no new application at all.
  pub delta_detection-limit :
      (length (in_scope host f fleet) == 0) ≡ false
      → ((delta_detection host fleet now ps f).non_compliant_endpoints ≤ 100)
        × (length (in_scope host f fleet)
            ≤ (delta_detection host fleet now ps f).compliant_endpoints + 100)
        × (((delta_detection host fleet now ps f).status ≡ passed) ↔ (new_rows ≡ []))
  unfolding delta_detection
  delta_detection-limit some_agents =
      let few = reported_agents in
      rw (delta_detection, some_agents) (few, omega (arith, few), passes_iff new_rows)
