-- ===== src/Compliance/Frameworks/NistCsf.antt =====
-- The controls of backend/domains/compliance/frameworks/nist_csf.py.
use sentora.Compliance.Entities.{
  ControlDefinition, agent_online, agent_version, app_version, classification_coverage, critical,
  custom_app_presence, delta_detection, eol_software, high, medium, prohibited_app, required_app,
  sync_freshness, unclassified_threshold, nist_csf,
}
use sentora.Compliance.Frameworks.{ComplianceFramework, built_in}
use sentora.Prelude.{List, String, [], ◌∷◌, ◌++◌}

abbrev pub nist_csf_framework : ComplianceFramework
nist_csf_framework = record { id = nist_csf; name = "NIST CSF 2.0"; version = "2.0 (2024)" }

unfoldable pub identify : List ControlDefinition
identify =
    let category : String = "Identify (ID)" in
    built_in nist_csf "NIST-ID.AM-01" "Asset Inventory Completeness" category high
      classification_coverage (("min_classified_percent", "90") ∷ []) [] []
    ∷ built_in nist_csf "NIST-ID.AM-01-SYNC" "Asset Inventory Currency" category medium
        sync_freshness (("max_hours_since_sync", "24") ∷ []) [] []
    ∷ built_in nist_csf "NIST-ID.AM-02" "Software Inventory Classification" category high
        unclassified_threshold (("max_unclassified_percent", "10") ∷ []) [] []
    ∷ built_in nist_csf "NIST-ID.AM-02-EOL" "Software Lifecycle Tracking" category high eol_software
        (("flag_security_only", "true") ∷ ("min_match_confidence", "0.8") ∷ []) [] []
    ∷ []

unfoldable pub protect : List ControlDefinition
protect =
    let category : String = "Protect (PR)" in
    built_in nist_csf "NIST-PR.DS-01" "Data-at-Rest Protection — Encryption Software" category high
      custom_app_presence (("app_pattern", "\"\"") ∷ ("must_exist", "true") ∷ []) [] []
    ∷ built_in nist_csf "NIST-PR.IR-01" "Infrastructure Resilience — Endpoints Protected" category
        critical agent_online (("max_offline_days", "3") ∷ []) [] []
    ∷ built_in nist_csf "NIST-PR.IR-01-VER" "Infrastructure Resilience — Agent Currency" category
        high agent_version [] [] []
    ∷ built_in nist_csf "NIST-PR.PS-01" "Platform Security — Configuration Management" category high
        delta_detection (("lookback_hours", "24") ∷ []) [] []
    ∷ built_in nist_csf "NIST-PR.PS-02" "Platform Security — Software Maintenance" category medium
        app_version (("max_outdated_percent", "15") ∷ []) [] []
    ∷ built_in nist_csf "NIST-PR.PS-02-EOL" "Platform Security — EOL Software Removal" category high
        eol_software (("flag_security_only", "false") ∷ ("min_match_confidence", "0.8") ∷ []) [] []
    ∷ []

unfoldable pub protect_2 : List ControlDefinition
protect_2 =
    let category : String = "Protect (PR)" in
    built_in nist_csf "NIST-PR.PS-05" "Platform Security — Authorized Software Only" category
      critical prohibited_app [] [] []
    ∷ built_in nist_csf "NIST-PR.PS-05-REQ" "Platform Security — Required Security Software"
        category high required_app (("required_apps", "[]") ∷ []) [] []
    ∷ []

unfoldable pub detect : List ControlDefinition
detect =
    let category : String = "Detect (DE)" in
    built_in nist_csf "NIST-DE.CM-01" "Continuous Monitoring — Endpoint Coverage" category critical
      agent_online (("max_offline_days", "1") ∷ []) [] []
    ∷ built_in nist_csf "NIST-DE.CM-06" "Continuous Monitoring — Security Agent Currency" category
        high agent_version [] [] []
    ∷ built_in nist_csf "NIST-DE.CM-09" "Continuous Monitoring — Vulnerability Awareness" category
        high eol_software (("flag_security_only", "true") ∷ ("min_match_confidence", "0.8") ∷ []) []
        []
    ∷ []

unfoldable pub nist_csf_controls : List ControlDefinition
unfolding identify protect protect_2 detect
nist_csf_controls = identify ++ (protect ++ (protect_2 ++ (detect)))
