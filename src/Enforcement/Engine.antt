-- ===== src/Enforcement/Engine.antt =====
-- backend/domains/enforcement/engine.py, with the reads and the write of repository.py that it calls.
-- The two queries of one check, `count_documents` and `find`, are taken to see the same agents.
use sentora.Prelude.{
  Bool, List, Option, String, [], head?, if◌then◌else◌, keep, length, map, none, some, str_eq, ℕ,
  ◌++◌, ◌+◌, ◌==◌, ◌∷◌,
}
use sentora.Enforcement.Entities.{
  EnforcementDb, EnforcementResult, EnforcementRule, RuleType, allowlist, failed, forbidden, passed,
  required,
}
use sentora.Enforcement.Violations.{
  collect, distinct, empty_report, get_taxonomy_patterns, missing, present, report,
  system_violation, unapproved,
}
use sentora.Scope.{Agent, ScopeFilter, build_agent_scope_filter}
use Prim.Native.String.{◌++◌ as ◌⧺◌}

-- What the engine calls and this repository does not implement.
pub record EnforcementRuntime : Type 0 where
  -- `re.compile(fnmatch.translate(p), re.IGNORECASE)`, as its `.match` test; `none` is `re.error`
  pub compile : String → Option (String → Bool)
  -- MongoDB's reading of an agent filter
  pub matches : ScopeFilter → Agent → Bool
  -- `.sort("created_at", -1)`
  pub newest_first : List EnforcementRule → List EnforcementRule
  -- `str(ObjectId(s))`; `none` is `InvalidId`
  pub object_id : String → Option String

module _ (rt : EnforcementRuntime) where
  -- `_compile_patterns`: a pattern that does not compile is skipped.
  abbrev pub compile_patterns : List String → List (String → Bool)
  compile_patterns [] = []
  compile_patterns (p ∷ ps) =
      let rest = compile_patterns ps in elim (rt.compile p) [ none ↦ rest | some q ↦ q ∷ rest ]

  abbrev pub find_agents : EnforcementDb → ScopeFilter → List Agent
  find_agents db scope_filter = keep (rt.matches scope_filter) db.agents

  unfoldable pub check_required :
      EnforcementDb → EnforcementRule → List (String → Bool) → ScopeFilter → ℕ → EnforcementResult
  check_required db rule compiled scope_filter now =
      let agents = find_agents db scope_filter in
      let total = length agents in
      let vs = collect (missing rule compiled) agents in
      if total == 0 then empty_report rule now passed [] else report rule now total (length vs) vs

  unfoldable pub check_forbidden :
      EnforcementDb → EnforcementRule → List (String → Bool) → ScopeFilter → ℕ → EnforcementResult
  check_forbidden db rule compiled scope_filter now =
      let agents = find_agents db scope_filter in
      let total = length agents in
      let vs = collect (present rule compiled) agents in
      if total == 0
      then empty_report rule now passed []
      else report rule now total (length (distinct (map (λ v. v.agent_id) vs))) vs

  unfoldable pub check_allowlist :
      EnforcementDb → EnforcementRule → List (String → Bool) → ScopeFilter → ℕ → EnforcementResult
  check_allowlist db rule compiled scope_filter now =
      let agents = find_agents db scope_filter in
      let total = length agents in
      let vs = collect (unapproved compiled) agents in
      if total == 0
      then empty_report rule now passed []
      else report rule now total (length (distinct (map (λ v. v.agent_id) vs))) vs

  -- `_CHECK_DISPATCH`
  abbrev pub check_dispatch :
      RuleType
      → EnforcementDb
      → EnforcementRule
      → List (String → Bool)
      → ScopeFilter
      → ℕ
      → EnforcementResult
  check_dispatch required = check_required
  check_dispatch forbidden = check_forbidden
  check_dispatch allowlist = check_allowlist

  abbrev pub scope_of : EnforcementRule → ScopeFilter
  scope_of rule = build_agent_scope_filter (some rule.scope_tags) (some rule.scope_groups)

  unfoldable pub evaluate_rule : EnforcementDb → EnforcementRule → ℕ → EnforcementResult
  evaluate_rule db rule now =
      elim (compile_patterns (get_taxonomy_patterns db rule.taxonomy_category_id)) [
        | [] ↦ empty_report rule now passed (
            system_violation
              ("No taxonomy patterns found for category '" ⧺ (rule.taxonomy_category_id ⧺ "'"))
            ∷ [])
        | p ∷ ps ↦ check_dispatch rule.rule_type db rule (p ∷ ps) (scope_of rule) now
      ]

  -- `list_rules(db, enabled_only=True)` and `get_rule`
  abbrev pub list_rules : EnforcementDb → List EnforcementRule
  list_rules db = rt.newest_first (keep (λ r. r.enabled) db.enforcement_rules)

  abbrev pub get_rule : EnforcementDb → String → Option EnforcementRule
  get_rule db rule_id = elim (rt.object_id rule_id) [
    | none ↦ none
    | some oid ↦ head? (keep (λ r. str_eq r.id oid) db.enforcement_rules)
  ]

  abbrev pub option_list : Option EnforcementRule → List EnforcementRule
  option_list none = []
  option_list (some r) = r ∷ []

  -- `rule_id` selects one rule when it is given and not empty.
  abbrev pub select_rules : EnforcementDb → Option String → List EnforcementRule
  select_rules db none = list_rules db
  select_rules db (some s) = if str_eq s "" then list_rules db else option_list (get_rule db s)

  -- What becomes of one evaluation: its result, or a failure if the database raised an exception.
  abbrev pub outcome : EnforcementDb → EnforcementRule → ℕ → Option String → EnforcementResult
  outcome db r now none = evaluate_rule db r now
  outcome db r now (some error) =
      empty_report r now failed (system_violation ("Check error: " ⧺ error) ∷ [])

  -- The evaluations that `gather` collects, the n-th at the time `clock n` and ending in the exception
  -- `raised n`, if there is one.
  abbrev pub gather :
      (ℕ → ℕ)
      → (ℕ → Option String)
      → EnforcementDb
      → ℕ
      → List EnforcementRule
      → List EnforcementResult
  gather clock raised db n [] = []
  gather clock raised db n (r ∷ rs) =
      outcome db r (clock n) (raised n) ∷ gather clock raised db (n + 1) rs

  -- `store_results`
  abbrev pub store_results : String → List EnforcementResult → EnforcementDb → EnforcementDb
  store_results run_id rs db = record db {
    enforcement_results = db.enforcement_results ++ map (λ r. (run_id, r)) rs;
  }

  -- `run_enforcement_checks`, whose first component, the run's id, is the argument here; the duration
  -- is measured, and 0 without rules.
  unfoldable pub run_enforcement_checks :
      String
      → ℕ
      → (ℕ → ℕ)
      → (ℕ → Option String)
      → EnforcementDb
      → Option String
      → (List EnforcementResult × ℕ) × EnforcementDb
  run_enforcement_checks run_id duration_ms clock raised db rule_id =
      elim (select_rules db rule_id) [
        | [] ↦ (([], 0), db)
        | r ∷ rs ↦
            let results = gather clock raised db 0 (r ∷ rs) in
            ((results, duration_ms), store_results run_id results db)
      ]
