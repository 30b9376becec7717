-- ===== src/Enforcement/Runs.antt =====
-- A run over several rules (`run_enforcement_checks`, backend/domains/enforcement/engine.py).
use sentora.Prelude.{
  Bool-cases, head?, keep, map, some, str_eq, str_eq_iff, take, ◌++◌, List, List-cases, Option,
  Option-cases, String, [], ap, append-nil, arith, inl, inr, none, refl, sym, ℕ, ◌+◌, ◌∷◌, ◌≡◌, ◌≢◌,
  ◌⊎◌,
}
use sentora.Enforcement.Engine.{
  EnforcementRuntime, check_allowlist, check_dispatch, check_forbidden, check_required,
  compile_patterns, evaluate_rule, gather, get_rule, option_list, outcome, run_enforcement_checks,
  scope_of, select_rules,
}
use sentora.Enforcement.Entities.{
  EnforcementDb, EnforcementResult, EnforcementRule, allowlist, failed, forbidden, required,
}
use Prim.Native.String.{◌++◌ as ◌⧺◌}
use sentora.Enforcement.Violations.{get_taxonomy_patterns}

-- Two lists of one length whose elements at each place stand in the relation, from the n-th on.
abbrev pub Pointwise :
    (ℕ → EnforcementRule → EnforcementResult → Type 0)
    → ℕ
    → List EnforcementRule
    → List EnforcementResult
    → Type 0
Pointwise P n [] [] = Unit
Pointwise P n [] (x ∷ xs) = ⊥
Pointwise P n (r ∷ rs) [] = ⊥
Pointwise P n (r ∷ rs) (x ∷ xs) = P n r x × Pointwise P (n + 1) rs xs

-- A result is that of its rule alone, or a failure that names the exception.
abbrev pub Answers :
    EnforcementRuntime
    → (ℕ → ℕ)
    → (ℕ → Option String)
    → EnforcementDb
    → ℕ
    → EnforcementRule
    → EnforcementResult
    → Type 0
Answers rt clock raised db n rule result =
    (result.rule_id ≡ rule.id)
    × (((raised n ≡ none) × (result ≡ evaluate_rule rt db rule (clock n)))
        ⊎ ((error : String) × (raised n ≡ some error)
            × (result.status ≡ failed)
            × (result.total_agents ≡ 0)
            × (map (λ v. v.violation_detail) result.violations ≡ ("Check error: " ⧺ error) ∷ [])))

-- The rules of a run: the enabled ones, the newest first, or the one with the id that is asked for,
-- enabled or not, if it is an id and there is one.
abbrev pub Chosen :
    EnforcementRuntime → EnforcementDb → Option String → List EnforcementRule → Type 0
Chosen rt db rule_id rules =
    (((rule_id ≡ none) ⊎ (rule_id ≡ some ""))
      × (rules ≡ rt.newest_first (keep (λ r. r.enabled) db.enforcement_rules)))
    ⊎ ((s : String) × (rule_id ≡ some s)
        × (s ≢ "")
        × (((rt.object_id s ≡ none) × (rules ≡ []))
            ⊎ ((oid : String) × (rt.object_id s ≡ some oid)
                × (rules ≡ take 1 (keep (λ r. str_eq r.id oid) db.enforcement_rules)))))

module _ (rt : EnforcementRuntime) where
  evaluate_rule-id :
      (db : EnforcementDb) (rule : EnforcementRule) (now : ℕ)
      → (evaluate_rule rt db rule now).rule_id ≡ rule.id
  unfolding evaluate_rule check_required check_forbidden check_allowlist
  evaluate_rule-id db rule now =
      elim (List-cases (compile_patterns rt (get_taxonomy_patterns db rule.taxonomy_category_id))) [
        | inl e ↦ rw (evaluate_rule, e)
        | inr (p, ps, e) ↦
            rw (evaluate_rule, e)
              (elim rule.rule_type
                as (λ t.
                  (check_dispatch rt t db rule (p ∷ ps) (scope_of rt rule) now).rule_id ≡ rule.id) [
                    | required ↦ ground arith
                    | forbidden ↦ ground arith
                    | allowlist ↦ ground arith
                  ])
      ]

  module _ (clock : ℕ → ℕ) (raised : ℕ → Option String) (db : EnforcementDb) where
    pub outcome-Answers :
        (n : ℕ) (r : EnforcementRule)
        → Answers rt clock raised db n r (outcome rt db r (clock n) (raised n))
    outcome-Answers n r = elim (Option-cases (raised n)) [
      | inl fine ↦ rw fine (evaluate_rule-id db r (clock n), inl (refl, refl))
      | inr (error, e) ↦ rw e (refl, inr (error, refl, refl, refl, refl))
    ]

    gather-Answers :
        (n : ℕ) (rs : List EnforcementRule)
        → Pointwise (Answers rt clock raised db) n rs (gather rt clock raised db n rs)
    gather-Answers n [] = tt
    gather-Answers n (r ∷ rs) = (outcome-Answers n r, gather-Answers (n + 1) rs)

    select_rules-Chosen :
        (rule_id : Option String) → Chosen rt db rule_id (select_rules rt db rule_id)
    select_rules-Chosen none = inl (inl refl, refl)
    select_rules-Chosen (some s) = elim (Bool-cases (str_eq s "")) [
      | inl y ↦ rw y (inl (inr (ap some ((str_eq_iff s "").0 y)), refl))
      | inr n ↦ rw n (inr (s, refl, (λ e. cc ((str_eq_iff s "").1 e, n)), by_id s))
    ]
      where
        first_of : (rs : List EnforcementRule) → option_list rt (head? rs) ≡ take 1 rs
        first_of [] = refl
        first_of (r ∷ rs) = refl

        by_id :
            (s : String)
            → ((rt.object_id s ≡ none) × (option_list rt (get_rule rt db s) ≡ []))
              ⊎ ((oid : String) × (rt.object_id s ≡ some oid)
                  × (option_list rt (get_rule rt db s)
                      ≡ take 1 (keep (λ r. str_eq r.id oid) db.enforcement_rules)))
        by_id s = elim (Option-cases (rt.object_id s)) [
          | inl gone ↦ inl (gone, rw (get_rule, gone) refl)
          | inr (oid, read) ↦ inr (
            oid,
            read,
            rw (get_rule, read) (first_of (keep (λ r. str_eq r.id oid) db.enforcement_rules)),
          )
        ]

    -- A run is for the enabled rules, the newest first, or for the one with the id that is asked for,
    -- enabled or not, and for none if there is no such rule. It answers for each of them, in their
    -- order, with the result of that rule alone or, when the database raised an exception, with a failed
    -- result whose one violation names it; and it stores exactly these results under the run's id,
    -- after those that are there, and changes nothing else.
    pub run_enforcement_checks-Answers :
        (run_id : String) (duration_ms : ℕ) (rule_id : Option String)
        → let ((results, duration), db') =
            run_enforcement_checks rt run_id duration_ms clock raised db rule_id in
          ((rules : List EnforcementRule) × Chosen rt db rule_id rules
            × Pointwise (Answers rt clock raised db) 0 rules results)
          × (db' ≡ record db {
            enforcement_results = db.enforcement_results ++ map (λ r. (run_id, r)) results;
          })
    unfolding run_enforcement_checks
    run_enforcement_checks-Answers run_id duration_ms rule_id =
        let chosen = select_rules-Chosen rule_id in
        elim (List-cases (select_rules rt db rule_id)) [
          | inl e ↦
              rw (run_enforcement_checks, e)
                (
                  (select_rules rt db rule_id, chosen, rw e tt),
                  ap (λ xs. record db { enforcement_results = xs })
                      (sym (append-nil db.enforcement_results)),
                )
          | inr (r, rs, e) ↦
              rw (run_enforcement_checks, e)
                ((select_rules rt db rule_id, chosen, rw e (gather-Answers 0 (r ∷ rs))), refl)
        ]
