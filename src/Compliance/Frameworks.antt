-- ===== src/Compliance/Frameworks.antt =====
-- The built-in frameworks (backend/domains/compliance/frameworks) and their controls, one module to
-- a file of the source. What only describes a framework or a control is left out, as in Entities.
pub mod Soc2
pub mod PciDss
pub mod Hipaa
pub mod Bsi
pub mod Dora
pub mod Iso27001
pub mod NistCsf
pub mod Nis2
pub mod CisV8
pub mod Registry
pub mod Lookup
pub mod Controls
mod Tests
use sentora.Compliance.Entities.{
  CheckType, ControlDefinition, ControlSeverity, FrameworkId, Parameters, check_value,
  framework_value,
}
use sentora.Prelude.{List, String}

pub record ComplianceFramework : Type 0 where
  pub id : FrameworkId
  pub name : String
  pub version : String

-- `ControlDefinition(…)`, its arguments in the order of the source; a default is written out.
abbrev pub built_in :
    FrameworkId
    → String
    → String
    → String
    → ControlSeverity
    → CheckType
    → Parameters
    → List String
    → List String
    → ControlDefinition
built_in framework id name category severity check_type parameters scope_tags scope_groups =
    record {
      id = id;
      framework_id = framework_value framework;
      name = name;
      category = category;
      severity = severity;
      check_type = check_value check_type;
      parameters = parameters;
      scope_tags = scope_tags;
      scope_groups = scope_groups;
    }
