-- ===== src/Compliance/Frameworks/Soc2.antt =====
-- The controls of backend/domains/compliance/frameworks/soc2.py.
use sentora.Compliance.Entities.{
  ControlDefinition, agent_online, agent_version, app_version, classification_coverage, critical,
  delta_detection, eol_software, high, medium, prohibited_app, required_app, sync_freshness,
  unclassified_threshold, soc2,
}
use sentora.Compliance.Frameworks.{ComplianceFramework, built_in}
use sentora.Prelude.{List, String, [], ◌∷◌, ◌++◌}

abbrev pub soc2_framework : ComplianceFramework
soc2_framework = record { id = soc2; name = "SOC 2 Type II"; version = "2024" }

unfoldable pub access_controls : List ControlDefinition
access_controls =
    let category : String = "CC6 — Access Controls" in
    built_in soc2 "SOC2-CC6.1" "Complete Software Inventory" category high sync_freshness
      (("max_hours_since_sync", "24") ∷ []) [] []
    ∷ built_in soc2 "SOC2-CC6.1-SW" "Software Asset Classification" category medium
        classification_coverage (("min_classified_percent", "90") ∷ []) [] []
    ∷ built_in soc2 "SOC2-CC6.6" "EDR Protection on All Endpoints" category critical agent_version
        [] [] []
    ∷ built_in soc2 "SOC2-CC6.7" "No Prohibited Software" category critical prohibited_app [] [] []
    ∷ built_in soc2 "SOC2-CC6.8" "Required Software Installed" category high required_app
        (("required_apps", "[]") ∷ []) [] []
    ∷ []

unfoldable pub system_operations : List ControlDefinition
system_operations =
    let category : String = "CC7 — System Operations" in
    built_in soc2 "SOC2-CC7.1" "Endpoint Software Change Monitoring" category medium delta_detection
      (("lookback_hours", "24") ∷ []) [] []
    ∷ built_in soc2 "SOC2-CC7.2" "Classification Anomaly Detection" category high
        classification_coverage (("min_classified_percent", "80") ∷ []) [] []
    ∷ built_in soc2 "SOC2-CC7.3" "Unclassified Application Threshold" category medium
        unclassified_threshold (("max_unclassified_percent", "10") ∷ []) [] []
    ∷ []

unfoldable pub change_management : List ControlDefinition
change_management =
    let category : String = "CC8 — Change Management" in
    built_in soc2 "SOC2-CC8.1" "Software Change Tracking" category medium delta_detection
      (("lookback_hours", "48") ∷ []) [] []
    ∷ []

unfoldable pub availability : List ControlDefinition
availability =
    let category : String = "A1 — Availability" in
    built_in soc2 "SOC2-A1.1" "Endpoint Availability" category high agent_online
      (("max_offline_days", "7") ∷ []) [] []
    ∷ built_in soc2 "SOC2-A1.2" "Data Freshness" category high sync_freshness
        (("max_hours_since_sync", "48") ∷ []) [] []
    ∷ []

unfoldable pub risk_assessment : List ControlDefinition
risk_assessment =
    let category : String = "CC3 — Risk Assessment" in
    built_in soc2 "SOC2-CC3.1" "Asset Classification Coverage" category medium
      classification_coverage (("min_classified_percent", "70") ∷ []) [] []
    ∷ built_in soc2 "SOC2-CC3.2" "Software Version Currency" category medium app_version
        (("max_outdated_percent", "20") ∷ []) [] []
    ∷ []

unfoldable pub access_controls_2 : List ControlDefinition
access_controls_2 =
    let category : String = "CC6 — Access Controls" in
    built_in soc2 "SOC2-CC6.1-EOL" "End-of-Life Software Detection" category high eol_software
      (("flag_security_only", "true") ∷ ("min_match_confidence", "0.8") ∷ []) [] []
    ∷ []

unfoldable pub risk_mitigation : List ControlDefinition
risk_mitigation =
    let category : String = "CC9 — Risk Mitigation" in
    built_in soc2 "SOC2-CC9.1" "Endpoint Protection Currency" category high agent_version [] [] []
    ∷ built_in soc2 "SOC2-CC9.2" "Prohibited Software Enforcement" category critical prohibited_app
        [] [] []
    ∷ []

unfoldable pub soc2_controls : List ControlDefinition
unfolding access_controls system_operations change_management availability risk_assessment
    access_controls_2 risk_mitigation
soc2_controls =
    access_controls
    ++ (system_operations
        ++ (change_management
            ++ (availability ++ (risk_assessment ++ (access_controls_2 ++ (risk_mitigation))))))
