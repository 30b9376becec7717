-- ===== src/Scope.antt =====
-- The scope filters of agent queries, backend/utils/scope.py, with the agents that they select.
use sentora.Prelude.{
  ◌||◌, refl, Bool, List, Option, String, [], any, arith, none, some, str_eq, true, ◌&&◌, ◌++◌, ◌∷◌,
  ◌≡◌,
}
mod Tests

-- The fields of an `agents` document that the checks and the filters read; `none` is a missing key.
pub record Agent : Type 0 where
  pub source_id : String
  pub hostname : Option String
  pub tags : List String
  pub group_name : String
  pub installed_app_names : Option (List String)

-- `{"tags": {"$in": …}}` and `{"group_name": {"$in": …}}`
pub data Condition : Type 0 where
  tags_in group_name_in : List String → Condition

-- `{}`, one condition, and `{"$and": …}`
pub data ScopeFilter : Type 0 where
  everything : ScopeFilter
  one : Condition → ScopeFilter
  all_of : List Condition → ScopeFilter

abbrev pub condition_on : (List String → Condition) → Option (List String) → List Condition
condition_on c none = []
condition_on c (some []) = []
condition_on c (some (x ∷ xs)) = c (x ∷ xs) ∷ []

abbrev pub combine : List Condition → ScopeFilter
combine [] = everything
combine (c ∷ []) = one c
combine (c ∷ d ∷ cs) = all_of (c ∷ d ∷ cs)

unfoldable pub build_agent_scope_filter : Option (List String) → Option (List String) → ScopeFilter
build_agent_scope_filter scope_tags scope_groups =
    combine (condition_on tags_in scope_tags ++ condition_on group_name_in scope_groups)

abbrev pub member : String → List String → Bool
member s xs = any (str_eq s) xs

pub member-append :
    (s : String) (xs ys : List String) → member s (xs ++ ys) ≡ (member s xs || member s ys)
member-append s [] ys = refl
member-append s (x ∷ xs) ys = ground (arith, member-append s xs ys)

-- What MongoDB documents of the filters: `{}` selects every document, `$and` those that each part
-- selects, and `$in` those whose value, or one of whose values, is listed.
pub record FilterLaws (matches : ScopeFilter → Agent → Bool) : Type 0 where
  pub everything_lem : (a : Agent) → matches everything a ≡ true
  pub tags_lem :
      (xs : List String) (a : Agent) → matches (one (tags_in xs)) a ≡ any (λ t. member t xs) a.tags
  pub group_lem :
      (xs : List String) (a : Agent) → matches (one (group_name_in xs)) a ≡ member a.group_name xs
  pub and_lem :
      (c d : Condition) (a : Agent)
      → matches (all_of (c ∷ d ∷ [])) a ≡ (matches (one c) a && matches (one d) a)

-- An agent has one of the tags, where there are any.
abbrev pub tagged : List String → Agent → Bool
tagged [] a = true
tagged (x ∷ xs) a = any (λ t. member t (x ∷ xs)) a.tags

-- An agent is in one of the groups, where there are any.
abbrev pub grouped : List String → Agent → Bool
grouped [] a = true
grouped (x ∷ xs) a = member a.group_name (x ∷ xs)

-- The filter of some tags and groups selects an agent exactly when it has one of the tags, or there
-- are none, and is in one of the groups, or there are none.
pub build_agent_scope_filter-matches :
    (matches : ScopeFilter → Agent → Bool)
    → FilterLaws matches
    → (scope_tags scope_groups : List String) (a : Agent)
    → matches (build_agent_scope_filter (some scope_tags) (some scope_groups)) a
      ≡ (tagged scope_tags a && grouped scope_groups a)
unfolding build_agent_scope_filter
build_agent_scope_filter-matches matches laws [] [] a = laws.everything_lem a
build_agent_scope_filter-matches matches laws [] (g ∷ gs) a = laws.group_lem (g ∷ gs) a
build_agent_scope_filter-matches matches laws (t ∷ ts) [] a =
    ground (arith, laws.tags_lem (t ∷ ts) a)
build_agent_scope_filter-matches matches laws (t ∷ ts) (g ∷ gs) a = rw (
  laws.and_lem (tags_in (t ∷ ts)) (group_name_in (g ∷ gs)) a,
  laws.tags_lem (t ∷ ts) a,
  laws.group_lem (g ∷ gs) a,
)
