-- ===== src/Compliance/Checks/EndOfLife.antt =====
-- The executor eol_software.py of backend/domains/compliance/checks. The groups of its aggregation come
-- in the order of their first rows.
use sentora.Prelude.{
  Bool, List, Option, String, [], any, false, if◌then◌else◌, keep, length, ltb, map, none, not,
  some, str_eq, true, ℕ, ◌&&◌, ◌==◌, ◌||◌, ◌∷◌,
}
use sentora.Compliance.Checks.{
  Endpoint, Fleet, Host, InstalledApp, agent_ids, f_string, hostname_of, in_scope, no_agents,
  not_applicable_result, source_id_of, tally,
}
use sentora.Compliance.Entities.{ComplianceViolation, Parameters}
use sentora.Compliance.Sharing.{Findings}
use sentora.Dicts.{Dict, get, has, set}
use sentora.Enforcement.Violations.{distinct}
use sentora.Eol.Cycles.{extract_cycle_match, read_products}
use sentora.Eol.Entities.{AppSummary, EolCycle, Ratio, ratio_le}
use sentora.Scope.{ScopeFilter, member}

-- The query of `app_summaries`; an empty list of excluded products excludes none.
abbrev pub is_eligible : Ratio → List String → AppSummary → Bool
is_eligible min_confidence excluded s = elim s.eol_match [
  | none ↦ false
  | some m ↦
      ratio_le min_confidence m.match_confidence
      && ((str_eq m.match_source "cpe" || str_eq m.match_source "manual")
          && not (member m.eol_product_id excluded))
]

-- What the code keeps of an application in its two dictionaries.
pub record MappedApp : Type 0 where
  pub product_id : String
  pub display_name : String

abbrev pub product_of : AppSummary → String
product_of s = elim s.eol_match [ none ↦ "" | some m ↦ m.eol_product_id ]

abbrev pub display_of : AppSummary → String
display_of s = elim s.display_name [ none ↦ s.normalized_name | some d ↦ d ]

abbrev pub map_apps : Dict (List EolCycle) → List AppSummary → Dict MappedApp → Dict MappedApp
map_apps cycles [] d = d
map_apps cycles (s ∷ ss) d = map_apps cycles ss (
    if has (product_of s) cycles
    then set s.normalized_name (record { product_id = product_of s; display_name = display_of s }) d
    else d)

-- The rows of scoped agents and mapped applications, the first of each agent and application.
abbrev pub same_group : InstalledApp → InstalledApp → Bool
same_group a b = str_eq a.agent_id b.agent_id && str_eq a.normalized_name b.normalized_name

abbrev pub first_rows : List InstalledApp → List InstalledApp → List InstalledApp
first_rows seen [] = []
first_rows seen (r ∷ rs) =
    let later = first_rows (r ∷ seen) rs in if any (same_group r) seen then later else r ∷ later

-- `doc.get("version") or "unknown"`
abbrev pub version_of : InstalledApp → String
version_of r = elim r.version [ none ↦ "unknown" | some v ↦ if str_eq v "" then "unknown" else v ]

abbrev pub date_or_unknown : Host → Option ℕ → String
date_or_unknown host none = "unknown"
date_or_unknown host (some d) = host.isodate d

abbrev pub is_flagged : Bool → EolCycle → Bool
is_flagged flag_security_only c = c.is_eol || (flag_security_only && c.is_security_only)

-- The cycle of an agent's version, and the application that it is of.
pub record Hit : Type 0 where
  pub row : InstalledApp
  pub app : MappedApp
  pub cycle : EolCycle

abbrev pub hit_of : Host → Dict (List EolCycle) → Dict MappedApp → InstalledApp → Option Hit
hit_of host cycles apps r = elim (get r.normalized_name apps) [
  | none ↦ none
  | some app ↦ elim (get app.product_id cycles) [
    | none ↦ none
    | some cs ↦ elim (extract_cycle_match host.py (version_of r) cs) [
      | none ↦ none
      | some c ↦ some (record { row = r; app = app; cycle = c })
    ]
  ]
]

-- The loop over the groups: those whose version is of a flagged cycle.
abbrev pub hits : Host → Bool → Dict (List EolCycle) → Dict MappedApp → List InstalledApp → List Hit
hits host flag cycles apps [] = []
hits host flag cycles apps (r ∷ rs) =
    let rest = hits host flag cycles apps rs in
    elim (hit_of host cycles apps r) [
      | none ↦ rest
      | some h ↦ if is_flagged flag h.cycle then h ∷ rest else rest
    ]

-- The host name of the last agent with an id.
abbrev pub resolve : List Endpoint → String → String
resolve [] id = ""
resolve (e ∷ es) id =
    let rest = resolve es id in
    if any (λ x. str_eq (source_id_of x) id) es
    then rest
    else if str_eq (source_id_of e) id
    then hostname_of e
    else rest

abbrev pub eol_detail : Host → Hit → String
eol_detail host h =
    if h.cycle.is_eol
    then f_string (
        "'"
        ∷ h.app.display_name
        ∷ "' version "
        ∷ version_of h.row
        ∷ " is End-of-Life since "
        ∷ date_or_unknown host h.cycle.eol_date
        ∷ ". No security patches are available."
        ∷ [])
    else f_string (
        "'"
        ∷ h.app.display_name
        ∷ "' version "
        ∷ version_of h.row
        ∷ " is in security-only support since "
        ∷ date_or_unknown host h.cycle.support_end
        ∷ ". Active support has ended."
        ∷ [])

abbrev pub eol_remediation : Host → Hit → String
eol_remediation host h =
    if h.cycle.is_eol
    then f_string (
        "Upgrade "
        ∷ h.app.display_name
        ∷ " to a supported version. Current version "
        ∷ version_of h.row
        ∷ " reached End-of-Life on "
        ∷ date_or_unknown host h.cycle.eol_date
        ∷ ". See https://endoflife.date/"
        ∷ h.app.product_id
        ∷ " for supported versions."
        ∷ [])
    else f_string (
        "Consider upgrading "
        ∷ h.app.display_name
        ∷ " to a fully supported version. Active support ended on "
        ∷ date_or_unknown host h.cycle.support_end
        ∷ ". See https://endoflife.date/"
        ∷ h.app.product_id
        ∷ " for current versions."
        ∷ [])

abbrev pub eol_violation : Host → Fleet → Hit → ComplianceViolation
eol_violation host fleet h = record {
  agent_id = h.row.agent_id;
  agent_hostname = resolve fleet.agents h.row.agent_id;
  violation_detail = eol_detail host h;
  app_name = some h.app.display_name;
  app_version = some (version_of h.row);
  remediation = eol_remediation host h;
}

-- The evidence: the endpoints, the applications past their end of life, and those in security-only
-- support.
abbrev pub eol_evidence : Host → Bool → ℕ → ℕ → ℕ → ℕ → String
eol_evidence host flag non_compliant total eol_count sec_count = f_string (
    host.digits non_compliant
    ∷ "/"
    ∷ host.digits total
    ∷ " endpoints have End-of-Life software. "
    ∷ host.digits eol_count
    ∷ " EOL application(s) detected."
    ∷ (if flag && ltb 0 sec_count
        then " " ∷ host.digits sec_count ∷ " application(s) in security-only support." ∷ []
        else []))

module _ (host : Host) (fleet : Fleet) (now : ℕ) (ps : Parameters) (f : ScopeFilter) where
  unfoldable pub eol_software : Findings
  eol_software =
      let flag = host.get_flag "flag_security_only" true ps in
      let eighty : Ratio = record { num = 80; den = 100 } in
      let min_confidence = host.get_ratio "min_match_confidence" eighty ps in
      let excluded = host.get_texts "exclude_products" ps in
      let scoped = in_scope host f fleet in
      let total = length scoped in
      let cycles = read_products host.py (host.day_of now) fleet.eol_products [] in
      let apps =
        map_apps cycles (keep (is_eligible min_confidence excluded) fleet.app_summaries) [] in
      let selected =
        keep (λ r. member r.agent_id (map source_id_of scoped) && has r.normalized_name apps)
          fleet.installed_apps in
      let found = hits host flag cycles apps (first_rows [] selected) in
      let vs = map (eol_violation host fleet) found in
      let non_compliant = length (distinct (agent_ids vs)) in
      let name = λ (h : Hit). h.row.normalized_name in
      let eol_apps = distinct (map name (keep (λ h. h.cycle.is_eol) found)) in
      let sec_apps = distinct (map name (keep (λ h. not h.cycle.is_eol) found)) in
      if total == 0
      then not_applicable_result now no_agents
      else if length apps == 0
      then tally now total 0 [] (
          f_string
            ("No End-of-Life software detected across " ∷ host.digits total ∷ " endpoints." ∷ []))
      else tally now total non_compliant vs
          (eol_evidence host flag non_compliant total (length eol_apps) (length sec_apps))
