-- ===== src/Compliance/Frameworks/Iso27001.antt =====
-- The controls of backend/domains/compliance/frameworks/iso27001.py.
use sentora.Compliance.Entities.{
  ControlDefinition, agent_online, agent_version, app_version, classification_coverage, critical,
  delta_detection, eol_software, high, medium, prohibited_app, required_app, sync_freshness,
  unclassified_threshold, iso27001,
}
use sentora.Compliance.Frameworks.{ComplianceFramework, built_in}
use sentora.Prelude.{List, String, [], ◌∷◌, ◌++◌}

abbrev pub iso27001_framework : ComplianceFramework
iso27001_framework = record { id = iso27001; name = "ISO/IEC 27001:2022"; version = "2022" }

unfoldable pub organizational_controls : List ControlDefinition
organizational_controls =
    let category : String = "A.5 Organizational Controls" in
    built_in iso27001 "ISO-A.5.9" "Inventory of Information and Associated Assets" category high
      classification_coverage (("min_classified_percent", "90") ∷ []) [] []
    ∷ built_in iso27001 "ISO-A.5.9-SYNC" "Asset Inventory Currency" category high sync_freshness
        (("max_hours_since_sync", "24") ∷ []) [] []
    ∷ built_in iso27001 "ISO-A.5.10" "Acceptable Use of Information and Assets" category critical
        prohibited_app [] [] []
    ∷ built_in iso27001 "ISO-A.5.14" "Information Transfer — Data Sync Continuity" category medium
        sync_freshness (("max_hours_since_sync", "48") ∷ []) [] []
    ∷ []

unfoldable pub technological_controls : List ControlDefinition
technological_controls =
    let category : String = "A.8 Technological Controls" in
    built_in iso27001 "ISO-A.8.1" "User Endpoint Devices — Protection Active" category high
      agent_online (("max_offline_days", "7") ∷ []) [] []
    ∷ built_in iso27001 "ISO-A.8.1-VER" "User Endpoint Devices — Agent Currency" category high
        agent_version [] [] []
    ∷ built_in iso27001 "ISO-A.8.7" "Protection Against Malware — Agent Active" category critical
        agent_online (("max_offline_days", "1") ∷ []) [] []
    ∷ built_in iso27001 "ISO-A.8.8" "Management of Technical Vulnerabilities — EOL Software"
        category high eol_software
        (("flag_security_only", "true") ∷ ("min_match_confidence", "0.8") ∷ []) [] []
    ∷ built_in iso27001 "ISO-A.8.8-VER" "Management of Technical Vulnerabilities — Patch Currency"
        category medium app_version (("max_outdated_percent", "15") ∷ []) [] []
    ∷ built_in iso27001 "ISO-A.8.9" "Configuration Management — Change Detection" category high
        delta_detection (("lookback_hours", "24") ∷ []) [] []
    ∷ []

unfoldable pub technological_controls_2 : List ControlDefinition
technological_controls_2 =
    let category : String = "A.8 Technological Controls" in
    built_in iso27001 "ISO-A.8.9-UNCL" "Configuration Management — Known Software State" category
      medium unclassified_threshold (("max_unclassified_percent", "10") ∷ []) [] []
    ∷ built_in iso27001 "ISO-A.8.19" "Installation of Software — Authorized Only" category critical
        prohibited_app [] [] ("Production" ∷ [])
    ∷ built_in iso27001 "ISO-A.8.19-REQ" "Installation of Software — Required Security Tools"
        category high required_app (("required_apps", "[]") ∷ []) [] []
    ∷ built_in iso27001 "ISO-A.8.16" "Monitoring Activities — Endpoint Visibility" category high
        classification_coverage (("min_classified_percent", "80") ∷ []) [] []
    ∷ built_in iso27001 "ISO-A.8.25" "Secure Development — Software Asset Classification" category
        medium classification_coverage (("min_classified_percent", "95") ∷ []) [] []
    ∷ built_in iso27001 "ISO-A.8.32" "Change Management — Software Change Tracking" category medium
        delta_detection (("lookback_hours", "48") ∷ []) [] []
    ∷ []

unfoldable pub iso27001_controls : List ControlDefinition
unfolding organizational_controls technological_controls technological_controls_2
iso27001_controls =
    organizational_controls ++ (technological_controls ++ (technological_controls_2))
