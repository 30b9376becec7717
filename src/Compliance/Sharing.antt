-- ===== src/Compliance/Sharing.antt =====
-- That sharing one query among controls changes no result (backend/domains/compliance/engine.py).
use sentora.Prelude.{
  All, All-snoc, Bool-cases, List, Option, String, [], append-nil, append_assoc, inl, inr, keep,
  map, refl, str_eq, str_eq_iff, subst, sym, true, ℕ, ◌++◌, ◌∙◌, ◌∷◌, ◌≡◌, ◌⊎◌,
}
use sentora.Compliance.Engine.{
  Catalogue, Group, Outcome, ResolvedControl, add_control, execute_check, filter_of, group_controls,
  has_executor, key_of, map_results, raised, remap_result, resolve_active_controls, returned,
  run_compliance_checks, store_check_results, to_result,
}
use sentora.Compliance.Entities.{
  CheckResult, CheckStatus, ComplianceDb, ComplianceViolation, Parameters,
}
use sentora.Scope.{ScopeFilter}
use mathlib.Core.List.Perm
use mathlib.Core.List.{Perm, perm_middle}

-- What a check finds, apart from whose it is.
pub record Findings : Type 0 where
  pub status : CheckStatus
  pub checked_at : ℕ
  pub total_endpoints : ℕ
  pub compliant_endpoints : ℕ
  pub non_compliant_endpoints : ℕ
  pub violations : List ComplianceViolation
  pub evidence_summary : String

abbrev pub label : ResolvedControl → String ⊎ Findings → Outcome
label c (inl text) = raised text
label c (inr f) = returned (record {
  control_id = c.control_id;
  framework_id = c.framework_id;
  status = f.status;
  checked_at = f.checked_at;
  total_endpoints = f.total_endpoints;
  compliant_endpoints = f.compliant_endpoints;
  non_compliant_endpoints = f.non_compliant_endpoints;
  violations = f.violations;
  evidence_summary = f.evidence_summary;
  severity = c.severity;
  category = c.category;
  control_name = c.name;
})

-- Executors look at the check type, the parameters and the filter alone, and put the control's own
-- identity on what they find.
pub record ExecutorLaws (cat : Catalogue) : Type 0 where
  pub find : String → Parameters → ScopeFilter → String ⊎ Findings
  pub runs :
      (c : ResolvedControl)
      → has_executor cat c ≡ true
      → execute_check cat c ≡ label c (find c.check_type c.parameters (filter_of cat c))

module _ {A B : Type 0} where
  pub map-append : (f : A → B) (xs ys : List A) → map f (xs ++ ys) ≡ map f xs ++ map f ys
  map-append f [] ys = refl
  map-append f (x ∷ xs) ys = rw (map-append f xs ys)

module _ (cat : Catalogue) (now : ℕ) where
  -- The result of a control that runs its own query.
  abbrev pub single : ResolvedControl → CheckResult
  single c = to_result cat now c (execute_check cat c)

  abbrev pub SameQuery : ResolvedControl → ResolvedControl → Type 0
  SameQuery c d =
      (c.check_type ≡ d.check_type)
      × (c.parameters ≡ d.parameters)
      × (filter_of cat c ≡ filter_of cat d)

  remap-single :
      ExecutorLaws cat
      → (p d : ResolvedControl) → has_executor cat p ≡ true
      → has_executor cat d ≡ true
      → SameQuery p d
      → remap_result cat (single p) d ≡ single d
  remap-single laws p d hp hd (t, ps, f) =
      rw (laws.runs p hp, laws.runs d hd, t, ps, f)
        (elim (laws.find d.check_type d.parameters (filter_of cat d))
          as (λ o.
            remap_result cat (to_result cat now p (label p o)) d
            ≡ to_result cat now d (label d o)) [ inl text ↦ refl | inr found ↦ refl ])

  abbrev members : Group cat → List ResolvedControl
  members g = g.primary ∷ g.duplicates

  abbrev flatten : List (Group cat) → List ResolvedControl
  flatten [] = []
  flatten (g ∷ gs) = members g ++ flatten gs

  add_control-Perm :
      (c : ResolvedControl) (gs : List (Group cat))
      → Perm (flatten (add_control cat c gs)) (c ∷ flatten gs)
  add_control-Perm c [] = Perm.refl _
  add_control-Perm c (g ∷ gs) = elim (Bool-cases (str_eq g.key (key_of cat c))) [
    | inl same ↦
        rw (same, append_assoc g.duplicates (c ∷ []) (flatten gs))
          (perm_middle {a = c} (members g) (flatten gs))
    | inr other ↦ rw other (
        Perm.trans (Perm.append_left (members g) (add_control-Perm c gs))
          (perm_middle {a = c} (members g) (flatten gs)))
  ]

  group_controls-Perm :
      (cs : List ResolvedControl) (gs : List (Group cat))
      → Perm (flatten (group_controls cat gs cs)) (keep (has_executor cat) cs ++ flatten gs)
  group_controls-Perm [] gs = Perm.refl _
  group_controls-Perm (c ∷ cs) gs = elim (Bool-cases (has_executor cat c)) [
    | inr absent ↦ rw absent (group_controls-Perm cs gs)
    | inl found ↦ rw found (
        Perm.trans (group_controls-Perm cs (add_control cat c gs)) (
          Perm.trans (Perm.append_left (keep (has_executor cat) cs) (add_control-Perm c gs))
            (perm_middle {a = c} (keep (has_executor cat) cs) (flatten gs))))
  ]

  module _ (laws : ExecutorLaws cat) (P : ResolvedControl → Type 0)
      (apart : (c d : ResolvedControl)
        → P c
        → P d
        → key_of cat c ≡ key_of cat d
        → SameQuery c d) where
    -- A group holds controls of one key, with an executor.
    abbrev Joins : Group cat → ResolvedControl → Type 0
    Joins g d = P d × (has_executor cat d ≡ true) × (key_of cat d ≡ g.key)

    abbrev IsGroup : Group cat → Type 0
    IsGroup g = Joins g g.primary × All (Joins g) g.duplicates

    add_control-IsGroup :
        (c : ResolvedControl) (gs : List (Group cat))
        → P c
        → has_executor cat c ≡ true
        → All IsGroup gs
        → All IsGroup (add_control cat c gs)
    add_control-IsGroup c [] p e h = (((p, e, refl), tt), tt)
    add_control-IsGroup c (g ∷ gs) p e h = elim (Bool-cases (str_eq g.key (key_of cat c))) [
      | inl same ↦ rw same (
        (
          h.0.0,
          All-snoc (Joins g) c g.duplicates h.0.1
              (p, e, sym ((str_eq_iff g.key (key_of cat c)).0 same)),
        ),
        h.1,
      )
      | inr other ↦ rw other (h.0, add_control-IsGroup c gs p e h.1)
    ]

    group_controls-IsGroup :
        (cs : List ResolvedControl) (gs : List (Group cat))
        → All P cs
        → All IsGroup gs
        → All IsGroup (group_controls cat gs cs)
    group_controls-IsGroup [] gs p h = h
    group_controls-IsGroup (c ∷ cs) gs p h = elim (Bool-cases (has_executor cat c)) [
      | inr absent ↦ rw absent (group_controls-IsGroup cs gs p.1 h)
      | inl found ↦ rw found (
          group_controls-IsGroup cs (add_control cat c gs) p.1
            (add_control-IsGroup c gs p.0 found h))
    ]

    remap-duplicates :
        (g : Group cat) (ds : List ResolvedControl)
        → Joins g g.primary
        → All (Joins g) ds
        → map (remap_result cat (single g.primary)) ds ≡ map single ds
    remap-duplicates g [] j h = refl
    remap-duplicates g (d ∷ ds) j h =
        let (p, e, k) = j in
        let (q, f, m) = h.0 in
        rw (
          remap-single laws g.primary d e f (apart g.primary d p q (k ∙ sym m)),
          remap-duplicates g ds j h.1,
        )

    map_results-single :
        (gs : List (Group cat)) → All IsGroup gs → map_results cat now gs ≡ map single (flatten gs)
    map_results-single [] h = refl
    map_results-single (g ∷ gs) h = rw (
      map-append single g.duplicates (flatten gs),
      remap-duplicates g g.duplicates h.0.0 h.0.1,
      map_results-single gs h.1,
    )

  -- Where the active controls share a property under which one cache key means one query, and the
  -- executors look at the query alone, the results of a run are, in some order, those that the active
  -- controls with an executor get when each runs its own query; and the run stores exactly them.
  pub run_compliance_checks-Perm :
      ExecutorLaws cat
      → (run_id : String) (db : ComplianceDb) (framework_id : Option String)
        (P : ResolvedControl → Type 0)
      → All P (resolve_active_controls cat db framework_id)
      → ((c d : ResolvedControl) → P c → P d → key_of cat c ≡ key_of cat d → SameQuery c d)
      → Perm
          (run_compliance_checks cat run_id now db framework_id).0
          (map single (keep (has_executor cat) (resolve_active_controls cat db framework_id)))
        × ((run_compliance_checks cat run_id now db framework_id).1
            ≡ store_check_results cat run_id
                (run_compliance_checks cat run_id now db framework_id).0
                db)
  unfolding run_compliance_checks
  run_compliance_checks-Perm laws run_id db framework_id P held apart =
      let cs = resolve_active_controls cat db framework_id in
      let gs = group_controls cat [] cs in
      let ok = group_controls-IsGroup laws P apart cs [] held tt in
      let kept : Perm (flatten gs) (keep (has_executor cat) cs) =
        subst (Perm (flatten gs)) (append-nil (keep (has_executor cat) cs))
          (group_controls-Perm cs []) in
      (
        subst (λ rs. Perm rs (map single (keep (has_executor cat) cs)))
            (sym (map_results-single laws P apart gs ok)) (Perm.map single kept),
        refl,
      )
