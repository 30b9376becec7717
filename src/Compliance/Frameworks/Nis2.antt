-- ===== src/Compliance/Frameworks/Nis2.antt =====
-- The controls of backend/domains/compliance/frameworks/nis2.py.
use sentora.Compliance.Entities.{
  ControlDefinition, agent_online, agent_version, app_version, classification_coverage, critical,
  custom_app_presence, delta_detection, eol_software, high, medium, prohibited_app, required_app,
  sync_freshness, unclassified_threshold, nis2,
}
use sentora.Compliance.Frameworks.{ComplianceFramework, built_in}
use sentora.Prelude.{List, String, [], ◌∷◌, ◌++◌}

abbrev pub nis2_framework : ComplianceFramework
nis2_framework = record { id = nis2; name = "NIS2 — EU Directive 2022/2555"; version = "2022/2555" }

unfoldable pub policies_on_risk_analysis : List ControlDefinition
policies_on_risk_analysis =
    let category : String = "Policies on risk analysis (Art. 21.2a)" in
    built_in nis2 "NIS2-21.2a-1" "IT System Security — Endpoint Protection Active" category critical
      agent_online (("max_offline_days", "3") ∷ []) [] []
    ∷ built_in nis2 "NIS2-21.2a-2" "IT System Security — EDR Agent Currency" category high
        agent_version [] [] []
    ∷ built_in nis2 "NIS2-21.2a-3" "Risk Analysis — EOL Software Exposure" category high
        eol_software (("flag_security_only", "true") ∷ ("min_match_confidence", "0.8") ∷ []) [] []
    ∷ built_in nis2 "NIS2-21.2a-INV" "Risk Analysis — Asset Inventory Completeness" category high
        classification_coverage (("min_classified_percent", "90") ∷ []) [] []
    ∷ []

unfoldable pub supply_chain_security : List ControlDefinition
supply_chain_security =
    let category : String = "Supply chain security (Art. 21.2d)" in
    built_in nis2 "NIS2-21.2d-1" "Supply Chain — Software Patch Currency" category high app_version
      (("max_outdated_percent", "15") ∷ []) [] []
    ∷ built_in nis2 "NIS2-21.2d-2" "Supply Chain — Third-Party EOL Software" category high
        eol_software (("flag_security_only", "false") ∷ ("min_match_confidence", "0.8") ∷ []) [] []
    ∷ []

unfoldable pub acquisition_development_maintenance : List ControlDefinition
acquisition_development_maintenance =
    let category : String = "Acquisition, development, maintenance (Art. 21.2e)" in
    built_in nis2 "NIS2-21.2e-1" "Acquisition Security — No Unauthorized Software" category critical
      prohibited_app [] [] []
    ∷ built_in nis2 "NIS2-21.2e-2" "Maintenance Security — Required Security Software" category high
        required_app (("required_apps", "[]") ∷ []) [] []
    ∷ built_in nis2 "NIS2-21.2e-3" "Acquisition Security — Software Classification" category medium
        classification_coverage (("min_classified_percent", "80") ∷ []) [] []
    ∷ built_in nis2 "NIS2-21.2e-CHG" "Maintenance Security — Change Detection" category high
        delta_detection (("lookback_hours", "24") ∷ []) [] []
    ∷ []

unfoldable pub cyber_hygiene_practices : List ControlDefinition
cyber_hygiene_practices =
    let category : String = "Cyber hygiene practices (Art. 21.2h)" in
    built_in nis2 "NIS2-21.2h-1" "Cyber Hygiene — Software Inventory Known" category medium
      unclassified_threshold (("max_unclassified_percent", "10") ∷ []) [] []
    ∷ built_in nis2 "NIS2-21.2h-2" "Cyber Hygiene — Data Freshness" category medium sync_freshness
        (("max_hours_since_sync", "48") ∷ []) [] []
    ∷ []

unfoldable pub cryptography_and_encryption : List ControlDefinition
cryptography_and_encryption =
    let category : String = "Cryptography and encryption (Art. 21.2i)" in
    built_in nis2 "NIS2-21.2i-1" "Cryptography — Encryption Software Present" category high
      custom_app_presence (("app_pattern", "\"\"") ∷ ("must_exist", "true") ∷ []) [] []
    ∷ []

unfoldable pub nis2_controls : List ControlDefinition
unfolding policies_on_risk_analysis supply_chain_security acquisition_development_maintenance
    cyber_hygiene_practices cryptography_and_encryption
nis2_controls =
    policies_on_risk_analysis
    ++ (supply_chain_security
        ++ (acquisition_development_maintenance
            ++ (cyber_hygiene_practices ++ (cryptography_and_encryption))))
