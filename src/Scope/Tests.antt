-- ===== src/Scope/Tests.antt =====
-- A reading of the filters that has their laws, and a run (backend/utils/scope.py).
use sentora.Prelude.{Bool, [], any, arith, false, refl, some, true, ◌&&◌, ◌∷◌, ◌≡◌}
use sentora.Scope.{
  Agent, Condition, FilterLaws, ScopeFilter, all_of, build_agent_scope_filter, everything,
  group_name_in, member, one, tags_in,
}

abbrev holds : Condition → Agent → Bool
holds (tags_in xs) a = any (λ t. member t xs) a.tags
holds (group_name_in xs) a = member a.group_name xs

abbrev selects : ScopeFilter → Agent → Bool
selects everything a = true
selects (one c) a = holds c a
selects (all_of []) a = true
selects (all_of (c ∷ cs)) a = holds c a && selects (all_of cs) a

and_true : (a b : Bool) → (a && (b && true)) ≡ (a && b)
and_true a b = ground arith

selects-FilterLaws : FilterLaws selects
selects-FilterLaws = record {
  everything_lem = λ a. refl;
  tags_lem = λ xs a. refl;
  group_lem = λ xs a. refl;
  and_lem = λ c d a. and_true (holds c a) (holds d a);
}

abbrev laptop : Agent
laptop = record {
  source_id = "a1";
  hostname = some "laptop";
  tags = "pci" ∷ "eu" ∷ [];
  group_name = "sales";
  installed_app_names = some ("chrome" ∷ []);
}

-- The laptop has a tag of the first list, and its group is not in the second.
wrong_group :
    selects (build_agent_scope_filter (some ("pci" ∷ [])) (some ("it" ∷ []))) laptop ≡ false
unfolding build_agent_scope_filter
wrong_group = refl
