-- ===== src/Compliance/Frameworks/Hipaa.antt =====
-- The controls of backend/domains/compliance/frameworks/hipaa.py.
use sentora.Compliance.Entities.{
  ControlDefinition, agent_online, agent_version, app_version, classification_coverage, critical,
  custom_app_presence, delta_detection, eol_software, high, low, medium, prohibited_app,
  required_app, sync_freshness, unclassified_threshold, hipaa,
}
use sentora.Compliance.Frameworks.{ComplianceFramework, built_in}
use sentora.Prelude.{List, String, [], ◌∷◌, ◌++◌}

abbrev pub hipaa_framework : ComplianceFramework
hipaa_framework = record { id = hipaa; name = "HIPAA Security Rule"; version = "45 CFR 164" }

unfoldable pub administrative_safeguards : List ControlDefinition
administrative_safeguards =
    let category : String = "§164.308 — Administrative Safeguards" in
    built_in hipaa "HIPAA-308a1" "Risk Analysis — Software Inventory" category high
      classification_coverage (("min_classified_percent", "90") ∷ []) ("HIPAA" ∷ []) []
    ∷ built_in hipaa "HIPAA-308a1-SYNC" "Risk Analysis — Data Currency" category high sync_freshness
        (("max_hours_since_sync", "24") ∷ []) [] []
    ∷ built_in hipaa "HIPAA-308a5" "Security Awareness — Training Software" category low
        custom_app_presence (("app_pattern", "\"\"") ∷ ("must_exist", "true") ∷ []) ("HIPAA" ∷ [])
        []
    ∷ built_in hipaa "HIPAA-308a6" "Security Incident — EDR Active" category critical agent_online
        (("max_offline_days", "1") ∷ []) ("HIPAA" ∷ []) []
    ∷ []

unfoldable pub technical_safeguards : List ControlDefinition
technical_safeguards =
    let category : String = "§164.312 — Technical Safeguards" in
    built_in hipaa "HIPAA-312a1" "Access Control — Authorised Software Only" category critical
      prohibited_app [] ("HIPAA" ∷ []) []
    ∷ built_in hipaa "HIPAA-312a1-UNCL" "Access Control — Unclassified Threshold" category high
        unclassified_threshold (("max_unclassified_percent", "5") ∷ []) ("HIPAA" ∷ []) []
    ∷ built_in hipaa "HIPAA-312a2iv" "Encryption Software Installed" category critical
        custom_app_presence (("app_pattern", "\"BitLocker*\"") ∷ ("must_exist", "true") ∷ [])
        ("HIPAA" ∷ []) []
    ∷ built_in hipaa "HIPAA-312b" "Audit Controls — Software Change Tracking" category high
        delta_detection (("lookback_hours", "24") ∷ []) ("HIPAA" ∷ []) []
    ∷ built_in hipaa "HIPAA-312c1" "Integrity Controls — Unauthorised Changes" category high
        delta_detection (("lookback_hours", "12") ∷ []) ("HIPAA" ∷ []) []
    ∷ built_in hipaa "HIPAA-312e1" "Transmission Security — VPN Software" category medium
        custom_app_presence (("app_pattern", "\"\"") ∷ ("must_exist", "true") ∷ []) ("HIPAA" ∷ [])
        []
    ∷ []

unfoldable pub technical_safeguards_2 : List ControlDefinition
technical_safeguards_2 =
    let category : String = "§164.312 — Technical Safeguards" in
    built_in hipaa "HIPAA-312a1-EOL" "EOL Software Access Risk" category high eol_software
      (("flag_security_only", "true") ∷ ("min_match_confidence", "0.8") ∷ []) ("HIPAA" ∷ []) []
    ∷ built_in hipaa "HIPAA-312d" "Person Authentication — EDR Version" category high agent_version
        [] ("HIPAA" ∷ []) []
    ∷ built_in hipaa "HIPAA-AVAIL-1" "ePHI System Availability" category high agent_online
        (("max_offline_days", "3") ∷ []) ("HIPAA" ∷ []) []
    ∷ built_in hipaa "HIPAA-SW-CURR" "ePHI Software Currency" category medium app_version
        (("max_outdated_percent", "10") ∷ []) ("HIPAA" ∷ []) []
    ∷ built_in hipaa "HIPAA-REQ-SW" "Required Security Software on ePHI" category high required_app
        (("required_apps", "[]") ∷ []) ("HIPAA" ∷ []) []
    ∷ []

unfoldable pub administrative_safeguards_2 : List ControlDefinition
administrative_safeguards_2 =
    let category : String = "§164.308 — Administrative Safeguards" in
    built_in hipaa "HIPAA-CLASS-COV" "ePHI Classification Coverage" category high
      classification_coverage (("min_classified_percent", "95") ∷ []) ("HIPAA" ∷ []) []
    ∷ []

unfoldable pub hipaa_controls : List ControlDefinition
unfolding administrative_safeguards technical_safeguards technical_safeguards_2
    administrative_safeguards_2
hipaa_controls =
    administrative_safeguards
    ++ (technical_safeguards ++ (technical_safeguards_2 ++ (administrative_safeguards_2)))
