-- ===== src/Compliance/Engine.antt =====
-- backend/domains/compliance/engine.py, with the reads and the write of repository.py that it calls.
use sentora.Prelude.{
  Bool, List, Option, String, [], any, false, if◌then◌else◌, keep, map, none, some, str_eq, true, ℕ,
  ◌++◌, ◌∷◌,
}
use sentora.Compliance.Entities.{
  CheckResult, ComplianceDb, ControlConfiguration, ControlDefinition, ControlSeverity, Parameters,
  error,
}
use sentora.Scope.{ScopeFilter, build_agent_scope_filter}
use Prim.Native.String.{◌++◌ as ◌⧺◌}

-- What an executor does: it returns a result or raises an exception with a text.
pub data Outcome : Type 0 where
  returned : CheckResult → Outcome
  raised : String → Outcome

-- A control with all overrides merged.
pub record ResolvedControl : Type 0 where
  pub control_id : String
  pub framework_id : String
  pub name : String
  pub category : String
  pub severity : ControlSeverity
  pub check_type : String
  pub parameters : Parameters
  pub scope_tags : List String
  pub scope_groups : List String

-- What the engine is given: `json.dumps(…, sort_keys=True)` of a query, SHA-256 as hexadecimal digits,
-- Python's `s[:16]`, the built-in frameworks with their controls, and the registered executors.
pub record Catalogue : Type 0 where
  pub dumps : String → Parameters → ScopeFilter → String
  pub sha256 : String → String
  pub first_16 : String → String
  pub framework_ids : List String
  pub framework_controls : String → List ControlDefinition
  pub get_executor : String → Option (ResolvedControl → ScopeFilter → Outcome)

-- `f"{framework_id}:{control_id}"`
abbrev pub config_key : String → String → String
config_key framework_id control_id = framework_id ⧺ (":" ⧺ control_id)

-- `config_map.get(key)`: the last configuration with the key.
abbrev pub get_config : String → List ControlConfiguration → Option ControlConfiguration
get_config key [] = none
get_config key (c ∷ cs) =
    let rest = get_config key cs in
    elim rest [
      | some d ↦ some d
      | none ↦ if str_eq (config_key c.framework_id c.control_id) key then some c else none
    ]

-- `framework_configs.get(framework_id, False)`: the last document counts.
abbrev pub framework_enabled : String → List (String × Bool) → Bool
framework_enabled fw_id [] = false
framework_enabled fw_id ((f, b) ∷ rest) =
    let later = framework_enabled fw_id rest in
    if any (λ g. str_eq g fw_id) (map (λ d. d.0) rest)
    then later
    else if str_eq f fw_id
    then b
    else false

-- `dict.update`: a key that is there keeps its place, a new one comes last.
abbrev pub set_parameter : String → String → Parameters → Parameters
set_parameter k v [] = (k, v) ∷ []
set_parameter k v ((j, w) ∷ ps) =
    let rest = set_parameter k v ps in if str_eq j k then (k, v) ∷ ps else (j, w) ∷ rest

abbrev pub update_parameters : Parameters → Parameters → Parameters
update_parameters base [] = base
update_parameters base ((k, v) ∷ kvs) = update_parameters (set_parameter k v base) kvs

abbrev pub or_default {ℓ} : {A : Type ℓ} → Option A → A → A
or_default none a = a
or_default (some b) a = b

-- The loop body for one definition; `none` is a control that its configuration disables.
abbrev pub resolve_control :
    List ControlConfiguration → String → ControlDefinition → Option ResolvedControl
resolve_control configs fw_id defn = elim (get_config (config_key fw_id defn.id) configs) [
  | none ↦ some (record {
    control_id = defn.id;
    framework_id = fw_id;
    name = defn.name;
    category = defn.category;
    severity = defn.severity;
    check_type = defn.check_type;
    parameters = defn.parameters;
    scope_tags = defn.scope_tags;
    scope_groups = defn.scope_groups;
  })
  | some config ↦
      if config.enabled
      then some (record {
        control_id = defn.id;
        framework_id = fw_id;
        name = defn.name;
        category = defn.category;
        severity = or_default config.severity_override defn.severity;
        check_type = defn.check_type;
        parameters = update_parameters defn.parameters config.parameters_override;
        scope_tags = or_default config.scope_tags_override defn.scope_tags;
        scope_groups = or_default config.scope_groups_override defn.scope_groups;
      })
      else none
]

abbrev pub resolve_all :
    List ControlConfiguration → String → List ControlDefinition → List ResolvedControl
resolve_all configs fw_id [] = []
resolve_all configs fw_id (d ∷ ds) =
    let rest = resolve_all configs fw_id ds in
    elim (resolve_control configs fw_id d) [ none ↦ rest | some c ↦ c ∷ rest ]

-- `[framework_id] if framework_id else get_all_framework_ids()`
abbrev pub selected : List String → Option String → List String
selected all_ids none = all_ids
selected all_ids (some s) = if str_eq s "" then all_ids else s ∷ []

-- `get_all_control_configs(db, framework_id)`
abbrev pub get_control_configs : ComplianceDb → Option String → List ControlConfiguration
get_control_configs db none = db.control_configs
get_control_configs db (some s) =
    if str_eq s ""
    then db.control_configs
    else keep (λ c. str_eq c.framework_id s) db.control_configs

module _ (cat : Catalogue) where
  abbrev pub resolve_frameworks :
      ComplianceDb → List ControlConfiguration → List String → List ResolvedControl
  resolve_frameworks db configs [] = []
  resolve_frameworks db configs (fw_id ∷ fws) =
      let rest = resolve_frameworks db configs fws in
      if framework_enabled fw_id db.framework_configs
      then resolve_all configs fw_id (cat.framework_controls fw_id)
        ++ (resolve_all configs fw_id (keep (λ d. str_eq d.framework_id fw_id) db.custom_controls)
            ++ rest)
      else rest

  unfoldable pub resolve_active_controls : ComplianceDb → Option String → List ResolvedControl
  resolve_active_controls db framework_id =
      resolve_frameworks db (get_control_configs db framework_id)
        (selected cat.framework_ids framework_id)

  abbrev pub cache_key : String → Parameters → ScopeFilter → String
  cache_key check_type parameters scope_filter =
      cat.first_16 (cat.sha256 (cat.dumps check_type parameters scope_filter))

  -- `build_scope_filter(ctrl.scope_tags, ctrl.scope_groups)`
  abbrev pub filter_of : ResolvedControl → ScopeFilter
  filter_of c = build_agent_scope_filter (some c.scope_tags) (some c.scope_groups)

  abbrev pub key_of : ResolvedControl → String
  key_of c = cache_key c.check_type c.parameters (filter_of c)

  -- An entry of `cache_key_map`, its list's first control, which is the one in `primary_controls`, and
  -- the others.
  pub record Group : Type 0 where
    pub key : String
    pub primary : ResolvedControl
    pub duplicates : List ResolvedControl

  abbrev pub add_control : ResolvedControl → List Group → List Group
  add_control c [] = record { key = key_of c; primary = c; duplicates = [] } ∷ []
  add_control c (g ∷ gs) =
      let rest = add_control c gs in
      if str_eq g.key (key_of c)
      then record g { duplicates = g.duplicates ++ (c ∷ []) } ∷ gs
      else g ∷ rest

  abbrev pub has_executor : ResolvedControl → Bool
  has_executor c = elim (cat.get_executor c.check_type) [ none ↦ false | some e ↦ true ]

  -- The loop that groups the controls; one without an executor is skipped.
  abbrev pub group_controls : List Group → List ResolvedControl → List Group
  group_controls gs [] = gs
  group_controls gs (c ∷ cs) =
      if has_executor c then group_controls (add_control c gs) cs else group_controls gs cs

  abbrev pub remap_result : CheckResult → ResolvedControl → CheckResult
  remap_result source ctrl = record source {
    control_id = ctrl.control_id;
    framework_id = ctrl.framework_id;
    severity = ctrl.severity;
    category = ctrl.category;
    control_name = ctrl.name;
  }

  abbrev pub error_result : ℕ → ResolvedControl → String → CheckResult
  error_result now ctrl text = record {
    control_id = ctrl.control_id;
    framework_id = ctrl.framework_id;
    status = error;
    checked_at = now;
    total_endpoints = 0;
    compliant_endpoints = 0;
    non_compliant_endpoints = 0;
    violations = [];
    evidence_summary = "Check execution error: " ⧺ text;
    severity = ctrl.severity;
    category = ctrl.category;
    control_name = ctrl.name;
  }

  -- `_execute_check` of a primary control, and its result or the result for its exception.
  abbrev pub to_result : ℕ → ResolvedControl → Outcome → CheckResult
  to_result now c (returned r) = r
  to_result now c (raised text) = error_result now c text

  -- The assertion holds: a control that is grouped has an executor.
  abbrev pub execute_check : ResolvedControl → Outcome
  execute_check c = elim (cat.get_executor c.check_type) [
    | none ↦ raised "AssertionError"
    | some executor ↦ executor c (filter_of c)
  ]

  -- The results of the groups, each the primary's and those remapped to the duplicates.
  abbrev pub map_results : ℕ → List Group → List CheckResult
  map_results now [] = []
  map_results now (g ∷ gs) =
      let r = to_result now g.primary (execute_check g.primary) in
      r ∷ (map (remap_result r) g.duplicates ++ map_results now gs)

  abbrev pub store_check_results : String → List CheckResult → ComplianceDb → ComplianceDb
  store_check_results run_id rs db = record db { results = db.results ++ map (λ r. (run_id, r)) rs }

  -- `run_compliance_checks`, without the measured duration.
  unfoldable pub run_compliance_checks :
      String → ℕ → ComplianceDb → Option String → List CheckResult × ComplianceDb
  run_compliance_checks run_id now db framework_id =
      let rs = map_results now (group_controls [] (resolve_active_controls db framework_id)) in
      (rs, store_check_results run_id rs db)
