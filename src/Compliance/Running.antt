-- ===== src/Compliance/Running.antt =====
-- The compliance engine with the registered executors and the built-in frameworks
-- (backend/domains/compliance: engine.py, checks/registry.py and frameworks/registry.py).
use sentora.Prelude.{
  ap, All, Bool, Bool-cases, List, Option, Option-cases, String, [], false, inl, inr, keep, map,
  none, refl, some, str_eq, subst, sym, true, ℕ, ◌++◌, ◌∙◌, ◌∷◌, ◌≡◌, ◌⊎◌,
}
use sentora.Compliance.Checks.{Fleet, Host}
use sentora.Compliance.Checks.Registry.{
  is_valid_check_type, is_valid_check_type-has, registered_executor, registry,
}
use sentora.Compliance.Engine.{
  Catalogue, ResolvedControl, config_key, execute_check, framework_enabled, get_config, filter_of,
  get_control_configs, has_executor, key_of, resolve_active_controls, resolve_all, resolve_control,
  resolve_frameworks, selected, run_compliance_checks, to_result,
}
use Prim.Native.String.{◌++◌ as ◌⧺◌}
use sentora.Compliance.Entities.{
  CheckResult, error, ComplianceDb, ControlConfiguration, ControlDefinition, Parameters,
}
use sentora.Compliance.Frameworks.Controls.{IsRegistered, get_framework_controls-IsRegistered}
use sentora.Compliance.Frameworks.Registry.{get_all_framework_ids, get_framework_controls}
use sentora.Compliance.Sharing.{
  ExecutorLaws, Findings, SameQuery, label, run_compliance_checks-Perm, single,
}
use sentora.Dicts.{get, has}
use sentora.Scope.{ScopeFilter}
use mathlib.Core.List.{Perm}

-- The catalogue that the engine imports; JSON, SHA-256 and `s[:16]` are arguments.
module _ (dumps : String → Parameters → ScopeFilter → String) (sha256 first_16 : String → String)
    (host : Host) (fleet : Fleet) (now : ℕ) where
  abbrev pub built_in_catalogue : Catalogue
  built_in_catalogue = record {
    dumps = dumps;
    sha256 = sha256;
    first_16 = first_16;
    framework_ids = get_all_framework_ids;
    framework_controls = get_framework_controls;
    get_executor = registered_executor host fleet now;
  }

-- Controls whose check types have executors.
abbrev pub Valid : String → Type 0
Valid check_type = is_valid_check_type check_type ≡ true

abbrev Known : List ResolvedControl → Type 0
Known cs = All (λ c. Valid c.check_type) cs

abbrev pub Defined : List ControlDefinition → Type 0
Defined ds = All (λ d. Valid d.check_type) ds

Known-append : (xs ys : List ResolvedControl) → Known xs → Known ys → Known (xs ++ ys)
Known-append [] ys h k = k
Known-append (x ∷ xs) ys h k = (h.0, Known-append xs ys h.1 k)

Defined-keep :
    (p : ControlDefinition → Bool) (ds : List ControlDefinition) → Defined ds → Defined (keep p ds)
Defined-keep p [] h = tt
Defined-keep p (d ∷ ds) h = elim (Bool-cases (p d)) [
  | inl y ↦ rw y (h.0, Defined-keep p ds h.1)
  | inr n ↦ rw n (Defined-keep p ds h.1)
]

-- A configuration does not change the check type.
resolve_control-check_type :
    (configs : List ControlConfiguration) (fw_id : String) (d : ControlDefinition)
    → (resolve_control configs fw_id d ≡ none)
      ⊎ ((c : ResolvedControl) × (resolve_control configs fw_id d ≡ some c)
          × (c.check_type ≡ d.check_type))
resolve_control-check_type configs fw_id d =
    elim (Option-cases (get_config (config_key fw_id d.id) configs)) [
      | inl absent ↦ rw (resolve_control, absent) (inr (_, refl, refl))
      | inr (config, found) ↦ elim (Bool-cases config.enabled) [
        | inl on ↦ rw (resolve_control, found, on) (inr (_, refl, refl))
        | inr off ↦ rw (resolve_control, found, off) (inl refl)
      ]
    ]

resolve_all-Known :
    (configs : List ControlConfiguration) (fw_id : String) (ds : List ControlDefinition)
    → Defined ds
    → Known (resolve_all configs fw_id ds)
resolve_all-Known configs fw_id [] h = tt
resolve_all-Known configs fw_id (d ∷ ds) h = elim (resolve_control-check_type configs fw_id d) [
  | inl gone ↦ rw (resolve_all, gone) (resolve_all-Known configs fw_id ds h.1)
  | inr (c, made, same) ↦
      rw (resolve_all, made) (rw same h.0, resolve_all-Known configs fw_id ds h.1)
]

resolve_frameworks-Known :
    (cat : Catalogue) (db : ComplianceDb) (configs : List ControlConfiguration)
    (built_in : (k : String) → Defined (cat.framework_controls k))
    (custom : Defined db.custom_controls) (fws : List String)
    → Known (resolve_frameworks cat db configs fws)
resolve_frameworks-Known cat db configs built_in custom [] = tt
resolve_frameworks-Known cat db configs built_in custom (k ∷ fws) =
    let rest = resolve_frameworks-Known cat db configs built_in custom fws in
    let own = keep (λ d. str_eq d.framework_id k) db.custom_controls in
    elim (Bool-cases (framework_enabled k db.framework_configs)) [
      | inr off ↦ rw off rest
      | inl on ↦ rw on (
          Known-append (resolve_all configs k (cat.framework_controls k)) _
            (resolve_all-Known configs k (cat.framework_controls k) (built_in k))
            (Known-append (resolve_all configs k own) _
              (resolve_all-Known configs k own
                (Defined-keep (λ d. str_eq d.framework_id k) db.custom_controls custom))
              rest))
    ]

IsRegistered-Valid :
    (k : String) (ds : List ControlDefinition) → All (IsRegistered k) ds → Defined ds
IsRegistered-Valid k [] h = tt
IsRegistered-Valid k (d ∷ ds) h = (h.0.check_valid, IsRegistered-Valid k ds h.1)

-- A result that carries what an executor finds.
pub record Carries (found : Findings) (r : CheckResult) : Type 0 where
  pub status : r.status ≡ found.status
  pub checked_at : r.checked_at ≡ found.checked_at
  pub total : r.total_endpoints ≡ found.total_endpoints
  pub compliant : r.compliant_endpoints ≡ found.compliant_endpoints
  pub non_compliant : r.non_compliant_endpoints ≡ found.non_compliant_endpoints
  pub violations : r.violations ≡ found.violations
  pub evidence : r.evidence_summary ≡ found.evidence_summary

-- The result for an exception with a text.
pub record IsErrorOf (text : String) (r : CheckResult) : Type 0 where
  pub status : r.status ≡ error
  pub total : r.total_endpoints ≡ 0
  pub violations : r.violations ≡ []
  pub evidence : r.evidence_summary ≡ "Check execution error: " ⧺ text

module _ (dumps : String → Parameters → ScopeFilter → String) (sha256 first_16 : String → String)
    (host : Host) (fleet : Fleet) (now : ℕ) where
  abbrev cat : Catalogue
  cat = built_in_catalogue dumps sha256 first_16 host fleet now

  abbrev find_in : String → Parameters → ScopeFilter → String ⊎ Findings
  find_in t ps f = elim (get t (registry host fleet now)) [
    | none ↦ inl "AssertionError"
    | some find ↦ elim (host.raised t ps f) [ some text ↦ inl text | none ↦ inr (find ps f) ]
  ]

  executor-find :
      (c : ResolvedControl)
      → execute_check cat c ≡ label c (find_in c.check_type c.parameters (filter_of cat c))
  unfolding registered_executor
  executor-find c = elim (Option-cases (get c.check_type (registry host fleet now))) [
    | inl absent ↦ rw (execute_check, find_in, absent) refl
    | inr (find, found) ↦
        elim (Option-cases (host.raised c.check_type c.parameters (filter_of cat c))) [
          | inl fine ↦ rw (execute_check, find_in, found, fine) refl
          | inr (text, thrown) ↦ rw (execute_check, find_in, found, thrown) refl
        ]
  ]

  pub registered-ExecutorLaws : ExecutorLaws cat
  registered-ExecutorLaws = record { find = find_in; runs = λ c h. executor-find c }

  -- A result of a control: it has the control's identity, and is what the executor that is registered
  -- for it finds or, exactly if that raises an exception, an error that carries its text.
  pub record Answered (c : ResolvedControl) (result : CheckResult) : Type 0 where
    pub of_control : result.control_id ≡ c.control_id
    pub of_framework : result.framework_id ≡ c.framework_id
    pub named : result.control_name ≡ c.name
    pub severity : result.severity ≡ c.severity
    pub category : result.category ≡ c.category
    pub find : Parameters → ScopeFilter → Findings
    pub registered : get c.check_type (registry host fleet now) ≡ some find
    pub ended_with :
        ((host.raised c.check_type c.parameters (filter_of cat c) ≡ none)
          × Carries (find c.parameters (filter_of cat c)) result)
        ⊎ ((text : String) × (host.raised c.check_type c.parameters (filter_of cat c) ≡ some text)
            × IsErrorOf text result)

  Valid-found :
      (t : String)
      → Valid t
      → (find : Parameters → ScopeFilter → Findings) × (get t (registry host fleet now) ≡ some find)
  Valid-found t v = elim (Option-cases (get t (registry host fleet now))) [
    | inr (find, found) ↦ (find, found)
    | inl absent ↦
        let held = sym (is_valid_check_type-has host fleet now t) ∙ v in
        let wrong : false ≡ true = rw (has, absent) at held in cc wrong
  ]

  Known-has_executor : (c : ResolvedControl) → Valid c.check_type → has_executor cat c ≡ true
  unfolding registered_executor
  Known-has_executor c v =
      let (find, found) = Valid-found c.check_type v in rw (has_executor, found) refl

  single-label :
      (c : ResolvedControl) {o : String ⊎ Findings}
      → find_in c.check_type c.parameters (filter_of cat c) ≡ o
      → single cat now c ≡ to_result cat now c (label c o)
  single-label c e =
      ap (to_result cat now c) (executor-find c) ∙ ap (λ o. to_result cat now c (label c o)) e

  Valid-Answered : (c : ResolvedControl) → Valid c.check_type → Answered c (single cat now c)
  Valid-Answered c v =
      let (find, found) = Valid-found c.check_type v in
      let f = filter_of cat c in
      elim (Option-cases (host.raised c.check_type c.parameters f)) [
        | inl fine ↦
            let carried : find_in c.check_type c.parameters f ≡ inr (find c.parameters f) =
              rw (find_in, found, fine) refl in
            subst (Answered c) (sym (single-label c carried)) (record {
              of_control = refl;
              of_framework = refl;
              named = refl;
              severity = refl;
              category = refl;
              find = find;
              registered = found;
              ended_with = inl (
                fine,
                record {
                  status = refl;
                  checked_at = refl;
                  total = refl;
                  compliant = refl;
                  non_compliant = refl;
                  violations = refl;
                  evidence = refl;
                },
              );
            })
        | inr (text, thrown) ↦
            let stopped : find_in c.check_type c.parameters f ≡ inl text =
              rw (find_in, found, thrown) refl in
            subst (Answered c) (sym (single-label c stopped)) (record {
              of_control = refl;
              of_framework = refl;
              named = refl;
              severity = refl;
              category = refl;
              find = find;
              registered = found;
              ended_with = inr (
                text,
                thrown,
                record { status = refl; total = refl; violations = refl; evidence = refl },
              );
            })
      ]

  Known-Answered :
      (cs : List ResolvedControl) → Known cs → All (λ c. Answered c (single cat now c)) cs
  Known-Answered [] h = tt
  Known-Answered (c ∷ cs) h = (Valid-Answered c h.0, Known-Answered cs h.1)

  keep-Known : (cs : List ResolvedControl) → Known cs → keep (has_executor cat) cs ≡ cs
  keep-Known [] h = refl
  keep-Known (c ∷ cs) h = rw (Known-has_executor c h.0) (rw (keep-Known cs h.1) refl)

  resolve_active_controls-Known :
      (db : ComplianceDb) (framework_id : Option String)
      → Defined db.custom_controls
      → Known (resolve_active_controls cat db framework_id)
  unfolding resolve_active_controls
  resolve_active_controls-Known db framework_id custom =
      resolve_frameworks-Known cat db (get_control_configs db framework_id)
        (λ k. IsRegistered-Valid k _ (get_framework_controls-IsRegistered k)) custom
        (selected cat.framework_ids framework_id)

  -- With the built-in frameworks and the registered executors, and custom controls whose check types are
  -- registered, every active control is answered and none is skipped: where one cache key means one
  -- query, the results of a run are, in some order, those that the active controls get when each runs
  -- its own query. Each of these has its control's identity and carries what the executor finds, or,
  -- exactly when the executor raises an exception, is an error that carries its text.
  pub run_compliance_checks-answers :
      (run_id : String) (db : ComplianceDb) (framework_id : Option String)
      (P : ResolvedControl → Type 0)
      → Defined db.custom_controls
      → All P (resolve_active_controls cat db framework_id)
      → ((c d : ResolvedControl) → P c → P d → key_of cat c ≡ key_of cat d → SameQuery cat now c d)
      → Perm
          (run_compliance_checks cat run_id now db framework_id).0
          (map (single cat now) (resolve_active_controls cat db framework_id))
        × All (λ c. Answered c (single cat now c)) (resolve_active_controls cat db framework_id)
  run_compliance_checks-answers run_id db framework_id P custom held apart =
      let cs = resolve_active_controls cat db framework_id in
      let known = resolve_active_controls-Known db framework_id custom in
      let (perm, stored) =
        run_compliance_checks-Perm cat now registered-ExecutorLaws run_id db framework_id P held
          apart in
      (
        subst
            (λ ds.
              Perm (run_compliance_checks cat run_id now db framework_id).0
                (map (single cat now) ds))
            (keep-Known cs known) perm,
        Known-Answered cs known,
      )
