-- ===== src/Compliance/Checks/Registry.antt =====
-- backend/domains/compliance/checks/registry.py.
use sentora.Prelude.{
  Bool, Bool-cases, List, Option, String, [], any, inl, inr, none, some, map, refl, str_eq, ℕ, ◌∷◌,
  ◌≡◌,
}
use sentora.Compliance.Checks.{Fleet, Host}
use sentora.Compliance.Checks.Agents.{agent_online, execute_agent_version}
use sentora.Compliance.Checks.Apps.{custom_app_presence, prohibited_app, required_app}
use sentora.Compliance.Checks.Coverage.{classification_coverage}
use sentora.Compliance.Checks.EndOfLife.{eol_software}
use sentora.Compliance.Checks.Inventory.{sync_freshness, unclassified_threshold}
use sentora.Compliance.Checks.Outdated.{outdated_apps}
use sentora.Compliance.Checks.Recent.{delta_detection}
use sentora.Compliance.Engine.{Outcome, ResolvedControl}
use sentora.Compliance.Entities.{CheckType, Parameters, check_value}
use sentora.Compliance.Sharing.{Findings, label}
use sentora.Dicts.{Dict, get, has}
use sentora.Scope.{ScopeFilter}
use mathlib.Core.Option

abbrev pub Executor : Type 0
Executor = ResolvedControl → ScopeFilter → Outcome

-- An executor raises an exception, or puts the identity of the control on what it finds.
abbrev pub as_executor : Host → (Parameters → ScopeFilter → Findings) → Executor
as_executor host find c f = label c (elim (host.raised c.check_type c.parameters f) [
  | some text ↦ inl text
  | none ↦ inr (find c.parameters f)
])

-- `_REGISTRY`, whose keys equal their texts.
abbrev pub registry : Host → Fleet → ℕ → Dict (Parameters → ScopeFilter → Findings)
registry host fleet now =
    (check_value CheckType.prohibited_app, prohibited_app host fleet now)
    ∷ (check_value CheckType.required_app, required_app host fleet now)
    ∷ (check_value CheckType.agent_version, execute_agent_version host fleet now)
    ∷ (check_value CheckType.agent_online, agent_online host fleet now)
    ∷ (check_value CheckType.app_version, outdated_apps host fleet now)
    ∷ (check_value CheckType.sync_freshness, sync_freshness host fleet now)
    ∷ (check_value CheckType.classification_coverage, classification_coverage host fleet now)
    ∷ (check_value CheckType.unclassified_threshold, unclassified_threshold host fleet now)
    ∷ (check_value CheckType.delta_detection, delta_detection host fleet now)
    ∷ (check_value CheckType.custom_app_presence, custom_app_presence host fleet now)
    ∷ (check_value CheckType.eol_software, eol_software host fleet now)
    ∷ []

unfoldable pub registered_executor : Host → Fleet → ℕ → String → Option Executor
registered_executor host fleet now check_type =
    Option.map (as_executor host) (get check_type (registry host fleet now))

abbrev pub registered_types : List String
registered_types = map check_value (
    CheckType.prohibited_app ∷ CheckType.required_app ∷ CheckType.agent_version
    ∷ CheckType.agent_online ∷ CheckType.app_version ∷ CheckType.sync_freshness
    ∷ CheckType.classification_coverage ∷ CheckType.unclassified_threshold
    ∷ CheckType.delta_detection ∷ CheckType.custom_app_presence ∷ CheckType.eol_software ∷ [])

unfoldable pub is_valid_check_type : String → Bool
is_valid_check_type check_type = any (λ k. str_eq k check_type) registered_types

-- A key is among the keys.
has-keys :
    (k : String) (d : Dict (Parameters → ScopeFilter → Findings))
    → any (λ j. str_eq j k) (map (λ e. e.0) d) ≡ has k d
has-keys k [] = refl
has-keys k ((j, v) ∷ d) = elim (Bool-cases (str_eq j k)) [
  | inl y ↦ rw (has, y) refl
  | inr n ↦ rw (has, n) (has-keys k d)
]

pub is_valid_check_type-has :
    (host : Host) (fleet : Fleet) (now : ℕ) (check_type : String)
    → is_valid_check_type check_type ≡ has check_type (registry host fleet now)
unfolding is_valid_check_type
is_valid_check_type-has host fleet now t = has-keys t (registry host fleet now)
