-- ===== src/Compliance/Checks/Expected.antt =====
-- Which agents fail which check (backend/domains/compliance/checks), said without the loops, and what
-- the loops collect for one of them.
use sentora.Prelude.{
  Bool, Bool-cases, List, Option-cases, String, [], any, arith, false, if◌then◌else◌, inl, inr,
  keep, length, map, none, not, refl, some, str_eq, true, ℕ, ◌==◌, ◌∷◌, ◌≡◌,
}
use sentora.Compliance.Checks.{Endpoint, Fleet, Host, installed, source_id_of}
use sentora.Compliance.Checks.Agents.{is_below, is_offline}
use sentora.Compliance.Checks.Apps.{
  custom_violations, has_app, lists_apps, matches_glob, prohibited_names, prohibited_violations,
}
use sentora.Compliance.Checks.Inventory.{classified_apps, exceeds}
use sentora.Compliance.Checks.Registry.{registered_executor}
use sentora.Compliance.Checks.Tally.{Names, ids-map, is_nil-map-keep}
use sentora.Compliance.Engine.{Outcome, ResolvedControl, raised}
use sentora.Compliance.Entities.{Parameters}
use sentora.Enforcement.Counts.{is_nil}
use sentora.Scope.{ScopeFilter, member}

pub data AgentCheck : Type 0 where
  online_check version_check required_check custom_check prohibited_check threshold_check :
      AgentCheck

-- The check types of `CheckType`.
abbrev pub check_name : AgentCheck → String
check_name online_check = "agent_online_check"
check_name version_check = "agent_version_check"
check_name required_check = "required_app_check"
check_name custom_check = "custom_app_presence_check"
check_name prohibited_check = "prohibited_app_check"
check_name threshold_check = "unclassified_threshold_check"

-- Whether the parameters say what to look for.
abbrev pub configured : Host → Parameters → AgentCheck → Bool
configured host ps online_check = true
configured host ps version_check = not (str_eq (host.get_text "min_version" ps) "")
configured host ps required_check = not (length (host.get_texts "required_apps" ps) == 0)
configured host ps custom_check = not (str_eq (host.get_text "app_pattern" ps) "")
configured host ps prohibited_check = true
configured host ps threshold_check = true

-- The agents that the loop of a check collects.
abbrev pub flags : Host → Fleet → ℕ → Parameters → AgentCheck → Endpoint → Bool
flags host fleet now ps online_check e = is_offline now (host.get_number "max_offline_days" 7 ps) e
flags host fleet now ps version_check e = is_below host (host.get_text "min_version" ps) e
flags host fleet now ps required_check e =
    any (λ r. not (has_app host r e)) (host.get_texts "required_apps" ps)
flags host fleet now ps custom_check e =
    if host.get_flag "must_exist" true ps
    then not (matches_glob host (host.get_text "app_pattern" ps) e)
    else matches_glob host (host.get_text "app_pattern" ps) e
flags host fleet now ps prohibited_check e =
    any (λ app. member (host.lower app) (map host.lower (prohibited_names fleet))) (installed e)
flags host fleet now ps threshold_check e =
    exceeds host (host.get_number "max_unclassified_percent" 10 ps) (classified_apps fleet) e

-- What the registered executor makes of a control.
abbrev pub run_executor : Host → Fleet → ℕ → String → ResolvedControl → ScopeFilter → Outcome
run_executor host fleet now check_type c f = elim (registered_executor host fleet now check_type) [
  | none ↦ raised "AssertionError"
  | some executor ↦ executor c f
]

pub custom-Names : (host : Host) (p : String) (b : Bool) → Names (custom_violations host p b)
custom-Names host p true e = elim (Bool-cases (matches_glob host p e)) [
  | inl y ↦ rw y tt
  | inr n ↦ rw n (refl, tt)
]
custom-Names host p false e =
    ids-map (source_id_of e) _ (keep (host.search_glob p) (installed e)) (λ x. refl)

pub custom-nil :
    (host : Host) (p : String) (b : Bool) (e : Endpoint)
    → is_nil (custom_violations host p b e)
      ≡ not (if b then not (matches_glob host p e) else matches_glob host p e)
custom-nil host p true e = elim (Bool-cases (matches_glob host p e)) [
  | inl y ↦ rw y refl
  | inr n ↦ rw n refl
]
custom-nil host p false e = is_nil-map-keep _ (host.search_glob p) (installed e)

-- An agent without a list of applications has no prohibited one.
pub prohibited-none :
    (host : Host) (names : List String) (e : Endpoint)
    → lists_apps e ≡ false
    → prohibited_violations host names e ≡ []
prohibited-none host names e n = elim (Option-cases e.agent.installed_app_names) [
  | inl gone ↦ rw gone refl
  | inr (xs, held) ↦ let wrong : true ≡ false = rw held at n in cc wrong
]

member-lowered :
    (host : Host) (names : List String) (s : String)
    → (length names == 0) ≡ true
    → member s (map host.lower names) ≡ false
member-lowered host [] s e = refl
member-lowered host (n ∷ names) s e = ground (arith, e)

pub none_prohibited :
    (host : Host) (names : List String)
    → (length names == 0) ≡ true
    → (e : Endpoint)
    → any (λ app. member (host.lower app) (map host.lower names)) (installed e) ≡ false
none_prohibited host names z e = none_any (installed e)
  where
    none_any :
        (apps : List String)
        → any (λ app. member (host.lower app) (map host.lower names)) apps ≡ false
    none_any [] = refl
    none_any (a ∷ apps) = rw (member-lowered host names (host.lower a) z) (none_any apps)
