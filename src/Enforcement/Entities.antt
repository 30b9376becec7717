-- ===== src/Enforcement/Entities.antt =====
-- backend/domains/enforcement/entities.py, and the collections that the engine reads and writes.
use sentora.Prelude.{Bool, List, Option, String, ℕ}
use sentora.Scope.{Agent}

pub data RuleType : Type 0 where
  required forbidden allowlist : RuleType

pub data Severity : Type 0 where
  critical high medium low : Severity

pub data CheckStatus : Type 0 where
  passed failed : CheckStatus

pub record EnforcementRule : Type 0 where
  pub id : String
  pub name : String
  pub taxonomy_category_id : String
  pub rule_type : RuleType
  pub severity : Severity
  pub description : Option String
  pub enabled : Bool
  pub scope_groups : List String
  pub scope_tags : List String
  pub labels : List String
  pub created_at : Option ℕ
  pub updated_at : Option ℕ
  pub created_by : Option String
  pub updated_by : Option String

pub record EnforcementViolation : Type 0 where
  pub agent_id : String
  pub agent_hostname : String
  pub violation_detail : String
  pub app_name : Option String
  pub app_version : Option String

pub record EnforcementResult : Type 0 where
  pub rule_id : String
  pub rule_name : String
  pub rule_type : String
  pub severity : String
  pub checked_at : ℕ
  pub status : CheckStatus
  pub total_agents : ℕ
  pub compliant_agents : ℕ
  pub non_compliant_agents : ℕ
  pub violations : List EnforcementViolation

-- `rule.type.value` and `rule.severity.value`
abbrev pub type_value : RuleType → String
type_value required = "required"
type_value forbidden = "forbidden"
type_value allowlist = "allowlist"

abbrev pub severity_value : Severity → String
severity_value critical = "critical"
severity_value high = "high"
severity_value medium = "medium"
severity_value low = "low"

-- The fields of a `taxonomy_entries` document that the engine reads.
pub record TaxonomyEntry : Type 0 where
  pub category : String
  pub patterns : Option (List String)

-- The collections; a stored result carries the id of its run.
pub record EnforcementDb : Type 0 where
  pub agents : List Agent
  pub taxonomy_entries : List TaxonomyEntry
  pub enforcement_rules : List EnforcementRule
  pub enforcement_results : List (String × EnforcementResult)
