-- ===== src/Compliance/Frameworks/Registry.antt =====
-- backend/domains/compliance/frameworks/registry.py.
use sentora.Prelude.{Bool, List, Option, String, [], false, map, none, some, true, ◌∷◌}
use sentora.Compliance.Entities.{ControlDefinition, framework_value}
use sentora.Compliance.Frameworks.{ComplianceFramework}
use sentora.Compliance.Frameworks.Bsi.{bsi_controls, bsi_framework}
use sentora.Compliance.Frameworks.CisV8.{cis_v8_controls, cis_v8_framework}
use sentora.Compliance.Frameworks.Dora.{dora_controls, dora_framework}
use sentora.Compliance.Frameworks.Hipaa.{hipaa_controls, hipaa_framework}
use sentora.Compliance.Frameworks.Iso27001.{iso27001_controls, iso27001_framework}
use sentora.Compliance.Frameworks.Nis2.{nis2_controls, nis2_framework}
use sentora.Compliance.Frameworks.NistCsf.{nist_csf_controls, nist_csf_framework}
use sentora.Compliance.Frameworks.PciDss.{pci_dss_controls, pci_dss_framework}
use sentora.Compliance.Frameworks.Soc2.{soc2_controls, soc2_framework}
use sentora.Dicts.{Dict, get, set}

abbrev pub frameworks : Dict ComplianceFramework
frameworks =
    (framework_value soc2_framework.id, soc2_framework)
    ∷ (framework_value pci_dss_framework.id, pci_dss_framework)
    ∷ (framework_value hipaa_framework.id, hipaa_framework)
    ∷ (framework_value bsi_framework.id, bsi_framework)
    ∷ (framework_value dora_framework.id, dora_framework)
    ∷ (framework_value iso27001_framework.id, iso27001_framework)
    ∷ (framework_value nist_csf_framework.id, nist_csf_framework)
    ∷ (framework_value nis2_framework.id, nis2_framework)
    ∷ (framework_value cis_v8_framework.id, cis_v8_framework)
    ∷ []

abbrev pub all_controls : Dict (List ControlDefinition)
all_controls =
    (framework_value soc2_framework.id, soc2_controls)
    ∷ (framework_value pci_dss_framework.id, pci_dss_controls)
    ∷ (framework_value hipaa_framework.id, hipaa_controls)
    ∷ (framework_value bsi_framework.id, bsi_controls)
    ∷ (framework_value dora_framework.id, dora_controls)
    ∷ (framework_value iso27001_framework.id, iso27001_controls)
    ∷ (framework_value nist_csf_framework.id, nist_csf_controls)
    ∷ (framework_value nis2_framework.id, nis2_controls)
    ∷ (framework_value cis_v8_framework.id, cis_v8_controls)
    ∷ []

-- The loop that fills the lookup by id: a later control takes the place of an earlier one.
abbrev pub add_controls : List ControlDefinition → Dict ControlDefinition → Dict ControlDefinition
add_controls [] d = d
add_controls (c ∷ cs) d = add_controls cs (set c.id c d)

abbrev pub collect_controls :
    Dict (List ControlDefinition) → Dict ControlDefinition → Dict ControlDefinition
collect_controls [] d = d
collect_controls ((k, cs) ∷ rest) d = collect_controls rest (add_controls cs d)

unfoldable pub controls_by_id : Dict ControlDefinition
controls_by_id = collect_controls all_controls []

unfoldable pub get_all_frameworks : List ComplianceFramework
get_all_frameworks = map (λ e. e.1) frameworks

unfoldable pub get_framework : String → Option ComplianceFramework
get_framework framework_id = get framework_id frameworks

unfoldable pub get_framework_controls : String → List ControlDefinition
get_framework_controls framework_id = elim (get framework_id all_controls) [
  | none ↦ []
  | some cs ↦ cs
]

unfoldable pub get_control : String → Option ControlDefinition
get_control control_id = get control_id controls_by_id

unfoldable pub get_all_framework_ids : List String
get_all_framework_ids = map (λ e. e.0) frameworks

unfoldable pub is_valid_framework : String → Bool
is_valid_framework framework_id = elim (get framework_id frameworks) [
  | none ↦ false
  | some f ↦ true
]
