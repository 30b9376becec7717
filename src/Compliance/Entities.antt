-- ===== src/Compliance/Entities.antt =====
-- backend/domains/compliance/entities.py, and the collections that the engine reads and writes. A
-- dictionary of parameters is a list of keys with values, the value as JSON text; fields that only
-- describe a control (its description, remediation, dates and authors) are left out.
use sentora.Prelude.{Bool, List, Option, String, ℕ}

pub data ControlSeverity : Type 0 where
  critical high medium low : ControlSeverity

pub data FrameworkId : Type 0 where
  soc2 pci_dss hipaa bsi dora iso27001 nist_csf nis2 cis_v8 : FrameworkId

abbrev pub framework_value : FrameworkId → String
framework_value soc2 = "soc2"
framework_value pci_dss = "pci_dss_4"
framework_value hipaa = "hipaa"
framework_value bsi = "bsi_grundschutz"
framework_value dora = "dora"
framework_value iso27001 = "iso27001"
framework_value nist_csf = "nist_csf"
framework_value nis2 = "nis2"
framework_value cis_v8 = "cis_v8"

pub data CheckType : Type 0 where
  prohibited_app required_app unclassified_threshold agent_version agent_online app_version :
      CheckType
  sync_freshness classification_coverage delta_detection custom_app_presence eol_software :
      CheckType

abbrev pub check_value : CheckType → String
check_value prohibited_app = "prohibited_app_check"
check_value required_app = "required_app_check"
check_value unclassified_threshold = "unclassified_threshold_check"
check_value agent_version = "agent_version_check"
check_value agent_online = "agent_online_check"
check_value app_version = "app_version_check"
check_value sync_freshness = "sync_freshness_check"
check_value classification_coverage = "classification_coverage_check"
check_value delta_detection = "delta_detection_check"
check_value custom_app_presence = "custom_app_presence_check"
check_value eol_software = "eol_software_check"

pub data CheckStatus : Type 0 where
  passed failed warning error not_applicable : CheckStatus

abbrev pub Parameters : Type 0
Parameters = List (String × String)

-- A `ControlDefinition` of a framework, or a tenant's `CustomControlDefinition`.
pub record ControlDefinition : Type 0 where
  pub id : String
  pub framework_id : String
  pub name : String
  pub category : String
  pub severity : ControlSeverity
  pub check_type : String
  pub parameters : Parameters
  pub scope_tags : List String
  pub scope_groups : List String

pub record ControlConfiguration : Type 0 where
  pub control_id : String
  pub framework_id : String
  pub enabled : Bool
  pub severity_override : Option ControlSeverity
  pub parameters_override : Parameters
  pub scope_tags_override : Option (List String)
  pub scope_groups_override : Option (List String)

pub record ComplianceViolation : Type 0 where
  pub agent_id : String
  pub agent_hostname : String
  pub violation_detail : String
  pub app_name : Option String
  pub app_version : Option String
  pub remediation : String

pub record CheckResult : Type 0 where
  pub control_id : String
  pub framework_id : String
  pub status : CheckStatus
  pub checked_at : ℕ
  pub total_endpoints : ℕ
  pub compliant_endpoints : ℕ
  pub non_compliant_endpoints : ℕ
  pub violations : List ComplianceViolation
  pub evidence_summary : String
  pub severity : ControlSeverity
  pub category : String
  pub control_name : String

-- `compliance_framework_config`, `compliance_control_config`, `compliance_custom_controls`, and
-- `compliance_results` with the id of the run.
pub record ComplianceDb : Type 0 where
  pub framework_configs : List (String × Bool)
  pub control_configs : List ControlConfiguration
  pub custom_controls : List ControlDefinition
  pub results : List (String × CheckResult)
