-- ===== src/Compliance/Frameworks/CisV8.antt =====
-- The controls of backend/domains/compliance/frameworks/cis_v8.py.
use sentora.Compliance.Entities.{
  ControlDefinition, agent_online, agent_version, app_version, classification_coverage, critical,
  delta_detection, eol_software, high, medium, prohibited_app, required_app, sync_freshness,
  unclassified_threshold, cis_v8,
}
use sentora.Compliance.Frameworks.{ComplianceFramework, built_in}
use sentora.Prelude.{List, String, [], ◌∷◌, ◌++◌}

abbrev pub cis_v8_framework : ComplianceFramework
cis_v8_framework = record { id = cis_v8; name = "CIS Controls v8"; version = "8.0 (2021)" }

unfoldable pub inventory_of_enterprise_assets : List ControlDefinition
inventory_of_enterprise_assets =
    let category : String = "Control 1 — Inventory of Enterprise Assets" in
    built_in cis_v8 "CIS-1.1" "Establish and Maintain Enterprise Asset Inventory" category high
      classification_coverage (("min_classified_percent", "90") ∷ []) [] []
    ∷ built_in cis_v8 "CIS-1.1-SYNC" "Asset Inventory Currency" category medium sync_freshness
        (("max_hours_since_sync", "24") ∷ []) [] []
    ∷ []

unfoldable pub inventory_of_software_assets : List ControlDefinition
inventory_of_software_assets =
    let category : String = "Control 2 — Inventory of Software Assets" in
    built_in cis_v8 "CIS-2.1" "Establish and Maintain Software Inventory" category high
      unclassified_threshold (("max_unclassified_percent", "10") ∷ []) [] []
    ∷ built_in cis_v8 "CIS-2.2" "Ensure Authorized Software Is Currently Supported" category high
        eol_software (("flag_security_only", "true") ∷ ("min_match_confidence", "0.8") ∷ []) [] []
    ∷ built_in cis_v8 "CIS-2.3" "Address Unauthorized Software" category critical prohibited_app []
        [] []
    ∷ built_in cis_v8 "CIS-2.5" "Allowlist Authorized Software" category high required_app
        (("required_apps", "[]") ∷ []) [] []
    ∷ built_in cis_v8 "CIS-2.6" "Allowlist Authorized Libraries — Change Detection" category high
        delta_detection (("lookback_hours", "24") ∷ []) [] []
    ∷ built_in cis_v8 "CIS-2.7" "Allowlist Authorized Scripts — Software Classification" category
        medium classification_coverage (("min_classified_percent", "95") ∷ []) [] []
    ∷ []

unfoldable pub continuous_vulnerability_management : List ControlDefinition
continuous_vulnerability_management =
    let category : String = "Control 7 — Continuous Vulnerability Management" in
    built_in cis_v8 "CIS-7.1" "Establish Vulnerability Management Process" category high
      eol_software (("flag_security_only", "false") ∷ ("min_match_confidence", "0.8") ∷ []) [] []
    ∷ built_in cis_v8 "CIS-7.3" "Perform Automated Operating System Patch Management" category high
        agent_version [] [] []
    ∷ built_in cis_v8 "CIS-7.4" "Perform Automated Application Patch Management" category high
        app_version (("max_outdated_percent", "10") ∷ []) [] []
    ∷ []

unfoldable pub malware_defenses : List ControlDefinition
malware_defenses =
    let category : String = "Control 10 — Malware Defenses" in
    built_in cis_v8 "CIS-10.1" "Deploy and Maintain Anti-Malware Software" category critical
      agent_online (("max_offline_days", "1") ∷ []) [] []
    ∷ built_in cis_v8 "CIS-10.2" "Configure Automatic Anti-Malware Signature Updates" category high
        agent_version [] [] []
    ∷ built_in cis_v8 "CIS-10.7" "Use Behavior-Based Anti-Malware Software" category critical
        agent_online (("max_offline_days", "7") ∷ []) [] []
    ∷ []

unfoldable pub cis_v8_controls : List ControlDefinition
unfolding inventory_of_enterprise_assets inventory_of_software_assets
    continuous_vulnerability_management malware_defenses
cis_v8_controls =
    inventory_of_enterprise_assets
    ++ (inventory_of_software_assets ++ (continuous_vulnerability_management ++ (malware_defenses)))
