-- ===== src/Compliance/Frameworks/PciDss.antt =====
-- The controls of backend/domains/compliance/frameworks/pci_dss.py.
use sentora.Compliance.Entities.{
  ControlDefinition, agent_online, agent_version, app_version, classification_coverage, critical,
  delta_detection, eol_software, high, medium, prohibited_app, required_app, sync_freshness,
  unclassified_threshold, pci_dss,
}
use sentora.Compliance.Frameworks.{ComplianceFramework, built_in}
use sentora.Prelude.{List, String, [], ◌∷◌, ◌++◌}

abbrev pub pci_dss_framework : ComplianceFramework
pci_dss_framework = record { id = pci_dss; name = "PCI DSS 4.0.1"; version = "4.0.1" }

unfoldable pub secure_configurations : List ControlDefinition
secure_configurations =
    let category : String = "Req 2 — Secure Configurations" in
    built_in pci_dss "PCI-2.2.1" "System Inventory Current" category high sync_freshness
      (("max_hours_since_sync", "24") ∷ []) [] []
    ∷ built_in pci_dss "PCI-2.2.5" "Only Authorised Software on CDE" category critical
        unclassified_threshold (("max_unclassified_percent", "0") ∷ []) ("PCI-CDE" ∷ []) []
    ∷ built_in pci_dss "PCI-2.2.5-P" "No Prohibited Software in CDE" category critical
        prohibited_app [] ("PCI-CDE" ∷ []) []
    ∷ []

unfoldable pub malware_protection : List ControlDefinition
malware_protection =
    let category : String = "Req 5 — Malware Protection" in
    built_in pci_dss "PCI-5.2.1" "Anti-Malware on All Systems" category critical agent_online
      (("max_offline_days", "1") ∷ []) [] []
    ∷ built_in pci_dss "PCI-5.2.2" "Anti-Malware Definitions Current" category high agent_version []
        [] []
    ∷ built_in pci_dss "PCI-5.2.3" "Regular Security Scans" category medium sync_freshness
        (("max_hours_since_sync", "12") ∷ []) [] []
    ∷ built_in pci_dss "PCI-5.3.1" "Anti-Malware Active on CDE Systems" category critical
        agent_online (("max_offline_days", "1") ∷ []) ("PCI-CDE" ∷ []) []
    ∷ []

unfoldable pub secure_software : List ControlDefinition
secure_software =
    let category : String = "Req 6 — Secure Software" in
    built_in pci_dss "PCI-6.3.1" "Known Vulnerability Identification" category high
      classification_coverage (("min_classified_percent", "95") ∷ []) [] []
    ∷ built_in pci_dss "PCI-6.3.3" "Security Patches Timely" category high app_version
        (("max_outdated_percent", "10") ∷ []) [] []
    ∷ built_in pci_dss "PCI-6.3.3-CDE" "CDE Patch Currency" category critical app_version
        (("max_outdated_percent", "0") ∷ []) ("PCI-CDE" ∷ []) []
    ∷ built_in pci_dss "PCI-6.3.3-EOL" "End-of-Life Software Patching" category critical
        eol_software (("flag_security_only", "false") ∷ ("min_match_confidence", "0.8") ∷ []) [] []
    ∷ []

unfoldable pub regular_testing : List ControlDefinition
regular_testing =
    let category : String = "Req 11 — Regular Testing" in
    built_in pci_dss "PCI-11.5.1" "Change Detection on CDE" category critical delta_detection
      (("lookback_hours", "24") ∷ []) ("PCI-CDE" ∷ []) []
    ∷ built_in pci_dss "PCI-11.5.1-ALL" "Fleet-Wide Change Detection" category medium
        delta_detection (("lookback_hours", "48") ∷ []) [] []
    ∷ []

unfoldable pub security_policy : List ControlDefinition
security_policy =
    let category : String = "Req 12 — Security Policy" in
    built_in pci_dss "PCI-12.5.1" "Complete System Component Inventory" category high
      classification_coverage (("min_classified_percent", "90") ∷ []) [] []
    ∷ built_in pci_dss "PCI-12.5.1-UNCL" "Unclassified Software Below Threshold" category medium
        unclassified_threshold (("max_unclassified_percent", "5") ∷ []) [] []
    ∷ built_in pci_dss "PCI-12.5.2" "Required Security Software" category high required_app
        (("required_apps", "[]") ∷ []) ("PCI-CDE" ∷ []) []
    ∷ []

unfoldable pub pci_dss_controls : List ControlDefinition
unfolding secure_configurations malware_protection secure_software regular_testing security_policy
pci_dss_controls =
    secure_configurations
    ++ (malware_protection ++ (secure_software ++ (regular_testing ++ (security_policy))))
