-- ===== src/Compliance/Checks/Tests.antt =====
-- Runs of the executors on a small fleet, and the witnesses of their properties.
use sentora.Prelude.{
  leb, ltb, ◌*◌, All, sym, map, List, Option, String, [], if◌then◌else◌, inr, none, refl, some,
  str_eq, str_eq_iff, true, ℕ, ◌/◌, ◌∙◌, ◌∷◌, ◌≡◌,
}
use sentora.Compliance.Checks.EndOfLife.{eol_software}
use sentora.Compliance.Checks.Fuzzy.{eol_software-ignores_fuzzy, without_fuzzy}
use sentora.Collections.{Distinct}
use sentora.Compliance.Checks.{Endpoint, Fleet, Host, in_scope, source_id_of}
use sentora.Compliance.Checks.Agents.{agent_online, agents_below, execute_agent_version}
use sentora.Compliance.Checks.Apps.{prohibited_app}
use sentora.Compliance.Checks.Coverage.{classification_coverage}
use sentora.Compliance.Checks.Outdated.{outdated_apps}
use sentora.Compliance.Checks.Recent.{delta_detection}
use sentora.Compliance.Checks.Registry.{is_valid_check_type, registered_executor}
use sentora.Compliance.Frameworks.Registry.{get_framework_controls}
use sentora.Compliance.Running.{
  Answered, Defined, built_in_catalogue, run_compliance_checks-answers,
}
use mathlib.Core.List.{Perm}
use sentora.Compliance.Checks.Expected.{prohibited_check, run_executor}
use sentora.Compliance.Checks.Failing.{fails}
use sentora.Compliance.Checks.Inventory.{sync_freshness}
use sentora.Compliance.Checks.Tally.{IsTally}
use sentora.Compliance.Checks.Verdicts.{run_executor-IsTally}
use sentora.Compliance.Engine.{
  Catalogue, ResolvedControl, filter_of, key_of, resolve_active_controls, run_compliance_checks,
}
use sentora.Compliance.Entities.{
  ComplianceDb, ControlDefinition, error, failed, high, passed, warning,
}
use sentora.Compliance.Sharing.{Findings, SameQuery, label, single}
use sentora.Scope.{build_agent_scope_filter, everything}

abbrev endpoint : String → Option ℕ → String → List String → Endpoint
endpoint id last_active version apps = record {
  agent = record {
    source_id = id;
    hostname = some id;
    tags = [];
    group_name = "g";
    installed_app_names = some apps;
  };
  last_active = last_active;
  agent_version = some version;
}

abbrev fleet : Fleet
fleet = record {
  agents =
      endpoint "e1" (some 1000000) "2" ("chrome" ∷ "zoom" ∷ [])
      ∷ endpoint "e2" none "1" ("zoom" ∷ "zoom" ∷ [])
      ∷ [];
  installed_apps =
      record {
        agent_id = "e1";
        normalized_name = "zoom";
        risk_level = "prohibited";
        version = none;
        last_synced_at = some 999000;
      }
      ∷ [];
  app_summaries =
      record {
        normalized_name = "chrome";
        display_name = none;
        category = some "browser";
        eol_match = none;
      }
      ∷ [];
  sync_runs =
      record { status = "completed"; completed_at = 900000 }
      ∷ record { status = "failed"; completed_at = 990000 }
      ∷ [];
  classification_agent_ids = [];
  eol_products = [];
}

abbrev host : Host
host = record {
  matches = λ f e. true;
  get_number = λ k d ps. d;
  get_text = λ k ps. if str_eq k "app_pattern" then "chrome" else "2";
  get_flag = λ k d ps. d;
  get_texts = λ k ps. "zoom" ∷ "chrome" ∷ [];
  digits = λ n. "n";
  percent = λ a b. "p";
  hours = λ n. "h";
  isoformat = λ n. "t";
  lower = λ s. s;
  search = str_eq;
  search_glob = str_eq;
  split_dots = λ s. s ∷ [];
  to_int = λ s. if str_eq s "1" then some 1 else some 2;
  get_ratio = λ k d ps. d;
  day_of = λ now. now / 86400;
  isodate = λ n. "d";
  py = record {
    lower = λ s. s;
    split = λ s. s ∷ [];
    strip_stars = λ s. s;
    replace = λ a b s. s;
    partition = λ s. none;
    search_version = λ s. some (s ∷ []);
    without_versions = λ s. s;
    without_parentheses = λ s. s;
    parse_date = λ s. none;
  };
  most_common_version = λ f fleet. none;
  sort_by_count = λ gs. gs;
  percent_gt = λ a b c. ltb (c * b) (a * 100);
  percent_ge = λ a b c. leb (c * b) (a * 100);
  percent_ge_most = λ a b c. leb (c * 8 * b) (a * 1000);
  raised = λ t ps f. if str_eq t "sync_freshness_check" then some "unsupported type" else none;
}

abbrev control : ResolvedControl
control = record {
  control_id = "c1";
  framework_id = "soc2";
  name = "no prohibited software";
  category = "software";
  severity = high;
  check_type = "prohibited_app_check";
  parameters = [];
  scope_tags = [];
  scope_groups = [];
}

-- An agent that was never active is not found offline.
never_active_is_online : (agent_online host fleet 1000001 [] everything).non_compliant_endpoints ≡ 0
unfolding agent_online
never_active_is_online = refl

two_apps_are_one_agent :
    (prohibited_app host fleet 1000001 [] everything).non_compliant_endpoints ≡ 2
unfolding prohibited_app
two_apps_are_one_agent = refl

last_completed_sync_counts : (sync_freshness host fleet 1000001 [] everything).status ≡ failed
unfolding sync_freshness
last_completed_sync_counts = refl

old_version_fails :
    (execute_agent_version host fleet 1000001 [] everything).non_compliant_endpoints ≡ 1
unfolding execute_agent_version agents_below
old_version_fails = refl

abbrev e2 : String
e2 = "e2"

agents_apart : Distinct source_id_of fleet.agents
agents_apart = (((λ e. cc ((str_eq_iff e2 "e1").1 e)), tt), (tt, tt))

run_executor-IsTally_example :
    (r : Findings) × (run_executor host fleet 1000001 "prohibited_app_check" control everything
      ≡ label control (inr r))
    × IsTally (fails host fleet 1000001 [] prohibited_check) (in_scope host everything fleet) r
run_executor-IsTally_example =
    run_executor-IsTally host fleet 1000001 [] everything agents_apart refl prohibited_check control
      refl refl refl

eol_software-ignores_fuzzy_example :
    eol_software host fleet 1000001 [] everything
    ≡ eol_software host
        (record fleet { app_summaries = map without_fuzzy fleet.app_summaries })
        1000001
        []
        everything
eol_software-ignores_fuzzy_example = eol_software-ignores_fuzzy host fleet 1000001 [] everything

new_application_warns : (delta_detection host fleet 1000001 [] everything).status ≡ warning
unfolding delta_detection
new_application_warns = refl

one_version_passes : (outdated_apps host fleet 1000001 [] everything).status ≡ passed
unfolding outdated_apps
one_version_passes = refl

nothing_classified : (classification_coverage host fleet 1000001 [] everything).status ≡ failed
unfolding classification_coverage
nothing_classified = refl

-- A framework of the tenant's own, with two controls.
abbrev own : String → String → ControlDefinition
own id check_type = record {
  id = id;
  framework_id = "acme";
  name = id;
  category = "own";
  severity = high;
  check_type = check_type;
  parameters = [];
  scope_tags = [];
  scope_groups = [];
}

abbrev acme : ComplianceDb
acme = record {
  framework_configs = ("acme", true) ∷ [];
  control_configs = [];
  custom_controls = own "a1" "agent_online_check" ∷ own "a2" "sync_freshness_check" ∷ [];
  results = [];
}

abbrev by_type : Catalogue
by_type = built_in_catalogue (λ t ps f. t) (λ s. s) (λ s. s) host fleet 1000001

abbrev Plain : ResolvedControl → Type 0
Plain c = (c.parameters ≡ []) × (filter_of by_type c ≡ everything)

one_query :
    (c d : ResolvedControl)
    → Plain c
    → Plain d
    → key_of by_type c ≡ key_of by_type d
    → SameQuery by_type 1000001 c d
one_query c d p q k = (k, p.0 ∙ sym q.0, p.1 ∙ sym q.1)

acme-Plain : All Plain (resolve_active_controls by_type acme (some "acme"))
unfolding resolve_active_controls build_agent_scope_filter get_framework_controls
acme-Plain = ((refl, refl), ((refl, refl), tt))

acme-Defined : Defined acme.custom_controls
unfolding is_valid_check_type
acme-Defined = (refl, (refl, tt))

run_compliance_checks-answers_example :
    Perm
      (run_compliance_checks by_type "run" 1000001 acme (some "acme")).0
      (map (single by_type 1000001) (resolve_active_controls by_type acme (some "acme")))
    × All
        (λ c.
          Answered (λ t ps f. t) (λ s. s) (λ s. s) host fleet 1000001 c (single by_type 1000001 c))
        (resolve_active_controls by_type acme (some "acme"))
run_compliance_checks-answers_example =
    run_compliance_checks-answers (λ t ps f. t) (λ s. s) (λ s. s) host fleet 1000001 "run" acme
      (some "acme") Plain acme-Defined acme-Plain one_query

-- The executor that raises an exception leaves an error, the other one a result.
error_and_result :
    map (λ r. r.status) (run_compliance_checks by_type "run" 1000001 acme (some "acme")).0
    ≡ passed ∷ error ∷ []
unfolding run_compliance_checks resolve_active_controls build_agent_scope_filter
    get_framework_controls registered_executor agent_online
error_and_result = refl
