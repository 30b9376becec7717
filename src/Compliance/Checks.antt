-- ===== src/Compliance/Checks.antt =====
-- What the executors of backend/domains/compliance/checks share (base.py): the collections they read,
-- what they call in Python's library, and the tail of their results. A percentage in the parameters is a
-- whole number; a time is a number of seconds.
pub mod Agents
pub mod Apps
pub mod Inventory
pub mod EndOfLife
pub mod Coverage
pub mod Recent
pub mod Outdated
pub mod Limits
pub mod Fuzzy
pub mod Tally
pub mod Expected
pub mod Failing
pub mod Registry
pub mod Verdicts
mod Tests
use sentora.Prelude.{
  Bool, List, Option, String, [], false, if◌then◌else◌, keep, length, ltb, map, none, opt_eq, some,
  take, ℕ, ◌++◌, ◌-◌, ◌==◌, ◌∷◌,
}
use sentora.Compliance.Entities.{ComplianceViolation, Parameters, failed, not_applicable, passed}
use sentora.Compliance.Sharing.{Findings}
use sentora.Enforcement.Violations.{get_hostname, get_list, max_violations}
use sentora.Eol.Entities.{AppSummary, ProductDoc, Ratio, Texts}
use sentora.Scope.{Agent, ScopeFilter}
use Prim.Native.String.{◌++◌ as ◌⧺◌}

-- The fields of an `agents` document that the executors read.
pub record Endpoint : Type 0 where
  pub agent : Agent
  pub last_active : Option ℕ
  pub agent_version : Option String

-- A row of `installed_apps`; a version of `none` is null.
pub record InstalledApp : Type 0 where
  pub agent_id : String
  pub normalized_name : String
  pub risk_level : String
  pub version : Option String
  pub last_synced_at : Option ℕ

-- A group of an aggregation over `installed_apps`, with the value that its rows share.
pub record RowGroup : Type 0 where
  pub group_id : Option String
  pub rows : List InstalledApp

pub record SyncRun : Type 0 where
  pub status : String
  pub completed_at : ℕ

pub record Fleet : Type 0 where
  pub agents : List Endpoint
  pub installed_apps : List InstalledApp
  pub app_summaries : List AppSummary
  pub sync_runs : List SyncRun
  pub classification_agent_ids : List String
  pub eol_products : List ProductDoc

-- What the executors are given: the meaning of a filter, `parameters.get(key, default)` on the JSON
-- texts, the formats of numbers, ages and dates, `str.lower`, `re`'s search for a text and for a
-- pattern with `*`, `str.split(".")`, `int`, which gives `none` for a ValueError,
-- the aggregation of the most common agent version, and MongoDB's sort of groups by the number of their
-- rows, the largest first.
-- `percent_gt a b c`, `percent_ge a b c` and `percent_ge_most a b c` are Python's `a / b * 100 > c`,
-- `a / b * 100 >= c` and `a / b * 100 >= c * 0.8`, on floating-point numbers. `raised` is the text of the
-- exception that the executor of a check type ends with for these parameters and this filter, if it
-- ends so: from a parameter whose value has no use, from a document, or from the database. Where it is
-- `none`, the getters give what the executor used.
pub record Host : Type 0 where
  pub matches : ScopeFilter → Endpoint → Bool
  pub get_number : String → ℕ → Parameters → ℕ
  pub get_text : String → Parameters → String
  pub get_flag : String → Bool → Parameters → Bool
  pub get_texts : String → Parameters → List String
  pub digits : ℕ → String
  pub percent : ℕ → ℕ → String
  pub hours : ℕ → String
  pub isoformat : ℕ → String
  pub lower : String → String
  pub search : String → String → Bool
  pub search_glob : String → String → Bool
  pub split_dots : String → List String
  pub to_int : String → Option ℕ
  pub get_ratio : String → Ratio → Parameters → Ratio
  pub day_of : ℕ → ℕ
  pub isodate : ℕ → String
  pub py : Texts
  pub most_common_version : ScopeFilter → Fleet → Option String
  pub sort_by_count : List RowGroup → List RowGroup
  pub percent_gt : ℕ → ℕ → ℕ → Bool
  pub percent_ge : ℕ → ℕ → ℕ → Bool
  pub percent_ge_most : ℕ → ℕ → ℕ → Bool
  pub raised : String → Parameters → ScopeFilter → Option String

-- `find(scope_filter or {})`, and its number by `count_documents`.
abbrev pub in_scope : Host → ScopeFilter → Fleet → List Endpoint
in_scope host f fleet = keep (host.matches f) fleet.agents

abbrev pub source_id_of : Endpoint → String
source_id_of e = e.agent.source_id

-- `agent.get("hostname", "unknown")` and `agent.get("installed_app_names", [])`
abbrev pub hostname_of : Endpoint → String
hostname_of e = get_hostname e.agent

abbrev pub installed : Endpoint → List String
installed e = get_list e.agent.installed_app_names

-- `(a / b * 100 if b > 0 else 0) > c`
abbrev pub percent_over : Host → ℕ → ℕ → ℕ → Bool
percent_over host a b c = if ltb 0 b then host.percent_gt a b c else false

-- The groups of rows by a value, in the order of their first rows.
abbrev pub add_row : Option String → InstalledApp → List RowGroup → List RowGroup
add_row k r [] = record { group_id = k; rows = r ∷ [] } ∷ []
add_row k r (g ∷ gs) =
    let rest = add_row k r gs in
    if opt_eq g.group_id k then record g { rows = g.rows ++ (r ∷ []) } ∷ gs else g ∷ rest

abbrev pub group_by :
    (InstalledApp → Option String) → List InstalledApp → List RowGroup → List RowGroup
group_by key [] gs = gs
group_by key (r ∷ rs) gs = group_by key rs (add_row (key r) r gs)

-- A missing value in an f-string.
abbrev pub shown : Option String → String
shown none = "None"
shown (some s) = s

-- What the executors compute; `label` adds the identity of the control that each of them copies.
abbrev pub not_applicable_result : ℕ → String → Findings
not_applicable_result now evidence_summary = record {
  status = not_applicable;
  checked_at = now;
  total_endpoints = 0;
  compliant_endpoints = 0;
  non_compliant_endpoints = 0;
  violations = [];
  evidence_summary = evidence_summary;
}

abbrev pub no_agents : String
no_agents = "No agents in scope"

-- `if len(violations) > MAX_VIOLATIONS: violations = violations[:MAX_VIOLATIONS]`
abbrev pub cap : List ComplianceViolation → List ComplianceViolation
cap vs = if ltb max_violations (length vs) then take max_violations vs else vs

-- An f-string, part by part.
abbrev pub f_string : List String → String
f_string [] = ""
f_string (s ∷ ss) = s ⧺ f_string ss

-- The loop over the agents, each of which adds violations.
abbrev pub gather_all {ℓ} :
    {A : Type ℓ} → (A → List ComplianceViolation) → List A → List ComplianceViolation
gather_all f [] = []
gather_all f (a ∷ as') = f a ++ gather_all f as'

abbrev pub agent_ids : List ComplianceViolation → List String
agent_ids vs = map (λ v. v.agent_id) vs

-- The tail of an executor that counts its endpoints: the totals, the verdict and the capped list.
abbrev pub tally : ℕ → ℕ → ℕ → List ComplianceViolation → String → Findings
tally now total non_compliant vs summary = record {
  status = if non_compliant == 0 then passed else failed;
  checked_at = now;
  total_endpoints = total;
  compliant_endpoints = total - non_compliant;
  non_compliant_endpoints = non_compliant;
  violations = cap vs;
  evidence_summary = summary;
}
