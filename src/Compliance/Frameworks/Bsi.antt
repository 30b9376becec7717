-- ===== src/Compliance/Frameworks/Bsi.antt =====
-- The controls of backend/domains/compliance/frameworks/bsi.py.
use sentora.Compliance.Entities.{
  ControlDefinition, agent_online, agent_version, app_version, classification_coverage, critical,
  custom_app_presence, delta_detection, eol_software, high, medium, prohibited_app, required_app,
  sync_freshness, unclassified_threshold, bsi,
}
use sentora.Compliance.Frameworks.{ComplianceFramework, built_in}
use sentora.Prelude.{List, String, [], ◌∷◌, ◌++◌}

abbrev pub bsi_framework : ComplianceFramework
bsi_framework = record { id = bsi; name = "BSI IT-Grundschutz"; version = "Edition 2023" }

unfoldable pub allgemeiner_client : List ControlDefinition
allgemeiner_client =
    let category : String = "SYS.2.1 — Allgemeiner Client" in
    built_in bsi "BSI-SYS.2.1.A3" "Aktivierung von Auto-Update-Mechanismen" category high
      app_version (("max_outdated_percent", "15") ∷ []) [] []
    ∷ built_in bsi "BSI-SYS.2.1.A4" "Regelmäßige Datensicherung" category medium custom_app_presence
        (("app_pattern", "\"\"") ∷ ("must_exist", "true") ∷ []) [] []
    ∷ built_in bsi "BSI-SYS.2.1.A6" "Einsatz von Virenschutzprogrammen" category critical
        agent_version [] [] []
    ∷ built_in bsi "BSI-SYS.2.1.A6-ONLINE" "Virenschutz — Agent-Erreichbarkeit" category critical
        agent_online (("max_offline_days", "3") ∷ []) [] []
    ∷ built_in bsi "BSI-SYS.2.1.A42" "Nutzung von Allowlists" category high prohibited_app [] [] []
    ∷ built_in bsi "BSI-SYS.2.1.A42-UNCL" "Allowlists — Unklassifizierte Apps" category medium
        unclassified_threshold (("max_unclassified_percent", "10") ∷ []) [] []
    ∷ []

unfoldable pub allgemeine_software : List ControlDefinition
allgemeine_software =
    let category : String = "APP.6 — Allgemeine Software" in
    built_in bsi "BSI-APP.6.A1" "Planung des Software-Einsatzes" category high
      classification_coverage (("min_classified_percent", "85") ∷ []) [] []
    ∷ built_in bsi "BSI-APP.6.A1-SYNC" "Software-Inventar — Aktualität" category high sync_freshness
        (("max_hours_since_sync", "24") ∷ []) [] []
    ∷ built_in bsi "BSI-APP.6.A2" "Erstellung eines Anforderungskatalogs" category medium
        required_app (("required_apps", "[]") ∷ []) [] []
    ∷ built_in bsi "BSI-APP.6.A4" "Sicherstellung der Integrität von Software" category high
        delta_detection (("lookback_hours", "24") ∷ []) [] []
    ∷ built_in bsi "BSI-APP.6.A5" "Deinstallation nicht benötigter Software" category medium
        unclassified_threshold (("max_unclassified_percent", "5") ∷ []) [] []
    ∷ []

unfoldable pub patch_management : List ControlDefinition
patch_management =
    let category : String = "OPS.1.1.3 — Patch-Management" in
    built_in bsi "BSI-OPS.1.1.3.A1" "Konzept für Patch- und Änderungsmanagement" category high
      app_version (("max_outdated_percent", "10") ∷ []) [] []
    ∷ []

unfoldable pub allgemeiner_client_2 : List ControlDefinition
allgemeiner_client_2 =
    let category : String = "SYS.2.1 — Allgemeiner Client" in
    built_in bsi "BSI-SYS.2.1-EOL" "End-of-Life Software Identification" category high eol_software
      (("flag_security_only", "true") ∷ ("min_match_confidence", "0.8") ∷ []) [] []
    ∷ []

unfoldable pub patch_management_2 : List ControlDefinition
patch_management_2 =
    let category : String = "OPS.1.1.3 — Patch-Management" in
    built_in bsi "BSI-OPS.1.1.3.A15" "Regelmäßige Aktualisierung der IT" category high app_version
      (("max_outdated_percent", "5") ∷ []) [] []
    ∷ built_in bsi "BSI-OPS.1.1.3.A15-EDR" "EDR-Agent Aktualisierung" category critical
        agent_version [] [] []
    ∷ []

unfoldable pub allgemeiner_client_3 : List ControlDefinition
allgemeiner_client_3 =
    let category : String = "SYS.2.1 — Allgemeiner Client" in
    built_in bsi "BSI-SYS.2.1.A9" "Festlegung einer Sicherheitsrichtlinie für Clients" category high
      prohibited_app [] [] []
    ∷ []

unfoldable pub bsi_controls : List ControlDefinition
unfolding allgemeiner_client allgemeine_software patch_management allgemeiner_client_2
    patch_management_2 allgemeiner_client_3
bsi_controls =
    allgemeiner_client
    ++ (allgemeine_software
        ++ (patch_management
            ++ (allgemeiner_client_2 ++ (patch_management_2 ++ (allgemeiner_client_3)))))
