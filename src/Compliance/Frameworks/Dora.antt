-- ===== src/Compliance/Frameworks/Dora.antt =====
-- The controls of backend/domains/compliance/frameworks/dora.py.
use sentora.Compliance.Entities.{
  ControlDefinition, agent_online, agent_version, app_version, classification_coverage, critical,
  delta_detection, eol_software, high, medium, prohibited_app, required_app, sync_freshness,
  unclassified_threshold, dora,
}
use sentora.Compliance.Frameworks.{ComplianceFramework, built_in}
use sentora.Prelude.{List, String, [], ◌∷◌, ◌++◌}

abbrev pub dora_framework : ComplianceFramework
dora_framework = record {
  id = dora;
  name = "DORA — Digital Operational Resilience Act";
  version = "EU 2022/2554";
}

unfoldable pub ict_asset_identification : List ControlDefinition
ict_asset_identification =
    let category : String = "ICT Asset Identification (Art. 8)" in
    built_in dora "DORA-8.1-01" "ICT Asset Inventory Completeness" category critical
      classification_coverage (("min_classified_percent", "95") ∷ []) [] []
    ∷ built_in dora "DORA-8.1-02" "ICT Asset Classification Coverage" category high
        unclassified_threshold (("max_unclassified_percent", "5") ∷ []) [] []
    ∷ built_in dora "DORA-8.4-01" "Critical ICT Asset Identification" category high required_app
        (("required_apps", "[]") ∷ []) [] []
    ∷ built_in dora "DORA-8.6-01" "ICT Inventory Freshness" category high sync_freshness
        (("max_hours_since_sync", "24") ∷ []) [] []
    ∷ built_in dora "DORA-8.2-01" "ICT Risk Source Detection" category medium delta_detection
        (("lookback_hours", "24") ∷ []) [] []
    ∷ built_in dora "DORA-8.7-01" "Legacy ICT System Assessment" category high eol_software
        (("flag_security_only", "true") ∷ ("min_match_confidence", "0.8") ∷ []) [] []
    ∷ []

unfoldable pub ict_protection_prevention : List ControlDefinition
ict_protection_prevention =
    let category : String = "ICT Protection & Prevention (Art. 9)" in
    built_in dora "DORA-9.1-01" "Endpoint Security Monitoring Active" category critical agent_online
      (("max_offline_days", "3") ∷ []) [] []
    ∷ built_in dora "DORA-9.2-01" "EDR Protection on All Endpoints" category critical required_app
        (("required_apps", "[]") ∷ []) [] []
    ∷ built_in dora "DORA-9.2-02" "Encryption Software Present" category high required_app
        (("required_apps", "[]") ∷ []) [] []
    ∷ built_in dora "DORA-9.3-01" "Unauthorized Software Restriction" category critical
        prohibited_app [] [] []
    ∷ built_in dora "DORA-9.3-02" "ICT Change Detection" category medium delta_detection
        (("lookback_hours", "24") ∷ []) [] []
    ∷ built_in dora "DORA-9.4-01" "Security Agent Version Currency" category high agent_version []
        [] []
    ∷ []

unfoldable pub ict_protection_prevention_2 : List ControlDefinition
ict_protection_prevention_2 =
    let category : String = "ICT Protection & Prevention (Art. 9)" in
    built_in dora "DORA-9.4-02" "Software Patch Currency" category medium app_version
      (("max_outdated_percent", "15") ∷ []) [] []
    ∷ []

unfoldable pub ict_anomaly_detection : List ControlDefinition
ict_anomaly_detection =
    let category : String = "ICT Anomaly Detection (Art. 10)" in
    built_in dora "DORA-10.1-01" "Software Change Anomaly Detection" category high delta_detection
      (("lookback_hours", "24") ∷ []) [] []
    ∷ built_in dora "DORA-10.1-02" "Unclassified Software Anomaly" category medium
        unclassified_threshold (("max_unclassified_percent", "10") ∷ []) [] []
    ∷ []

unfoldable pub ict_business_continuity : List ControlDefinition
ict_business_continuity =
    let category : String = "ICT Business Continuity (Art. 11)" in
    built_in dora "DORA-11.1-01" "Endpoint Monitoring Continuity" category high agent_online
      (("max_offline_days", "7") ∷ []) [] []
    ∷ built_in dora "DORA-11.2-01" "Data Collection Continuity" category medium sync_freshness
        (("max_hours_since_sync", "48") ∷ []) [] []
    ∷ []

unfoldable pub ict_third_party_software_risk : List ControlDefinition
ict_third_party_software_risk =
    let category : String = "ICT Third-Party Software Risk (Art. 28)" in
    built_in dora "DORA-28.1-01" "Third-Party Software Inventory" category high
      classification_coverage (("min_classified_percent", "90") ∷ []) [] []
    ∷ built_in dora "DORA-28.1-02" "Unapproved Third-Party Software" category critical
        prohibited_app [] [] []
    ∷ built_in dora "DORA-28.3-01" "Third-Party Software Documentation" category high
        unclassified_threshold (("max_unclassified_percent", "3") ∷ []) [] []
    ∷ []

unfoldable pub dora_controls : List ControlDefinition
unfolding ict_asset_identification ict_protection_prevention ict_protection_prevention_2
    ict_anomaly_detection ict_business_continuity ict_third_party_software_risk
dora_controls =
    ict_asset_identification
    ++ (ict_protection_prevention
        ++ (ict_protection_prevention_2
            ++ (ict_anomaly_detection
                ++ (ict_business_continuity ++ (ict_third_party_software_risk)))))
