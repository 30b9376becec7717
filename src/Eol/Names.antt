-- ===== src/Eol/Names.antt =====
-- Applications matched to products by name: backend/domains/eol/matching.py.
use sentora.Prelude.{
  Bool, List, Option, String, [], false, if◌then◌else◌, keep, leb, length, ltb, none, not, some,
  str_eq, true, ℕ, ◌&&◌, ◌==◌, ◌||◌, ◌∷◌,
}
use sentora.Dicts.{Dict, get, update}
use sentora.Eol.Entities.{Ratio, Texts, ratio_le, ratio_lt}
use sentora.Eol.Tables.{cpe_to_eol_map, name_to_eol_map, noise_words}
use sentora.Scope.{member}
use Prim.Native.String.{count, ◌++◌ as ◌⧺◌}
use text.Mathlib.Text.{find?, starts_with}

-- `needle in text`
abbrev pub contains : String → String → Bool
contains needle text = elim (find? text needle) [ none ↦ false | some i ↦ true ]

-- `" ".join(tokens)`
abbrev pub join_spaces : List String → String
join_spaces [] = ""
join_spaces (s ∷ []) = s
join_spaces (s ∷ t ∷ ss) = s ⧺ (" " ⧺ join_spaces (t ∷ ss))

unfoldable pub cpe_to_eol_product : Texts → String → String → Option String
cpe_to_eol_product py vendor product =
    get (py.lower vendor ⧺ (":" ⧺ py.lower product)) cpe_to_eol_map

-- The best key so far, with its length; the text may be none or empty, which the code tests alike.
pub record Best : Type 0 where
  pub best : Option String
  pub best_len : ℕ

-- The loop over the explicit mappings.
abbrev pub prefix_loop : String → (String → Bool) → Dict String → Best → Best
prefix_loop name known [] b = b
prefix_loop name known ((key, pid) ∷ rest) b = prefix_loop name known rest (
    if ltb b.best_len (count key) && (starts_with name key && known pid)
    then record { best = some pid; best_len = count key }
    else b)

abbrev pub slug_starts : String → String → Bool
slug_starts name slug =
    str_eq name slug || (starts_with name (slug ⧺ " ") || starts_with name (slug ⧺ "-"))

-- The loop over the product slugs.
abbrev pub slug_loop : String → List String → Best → Best
slug_loop name [] b = b
slug_loop name (slug ∷ slugs) b = slug_loop name slugs (
    if leb 4 (count slug) && (ltb b.best_len (count slug) && slug_starts name slug)
    then record { best = some slug; best_len = count slug }
    else b)

-- `if best:`
abbrev pub truthy_text : Option String → Option String
truthy_text none = none
truthy_text (some s) = if str_eq s "" then none else some s

abbrev pub exact_match : String → (String → Bool) → Dict String → Option String
exact_match name known merged = elim (get name merged) [
  | none ↦ none
  | some pid ↦ if known pid then some pid else none
]

-- `eol_products` by its keys.
unfoldable pub direct_name_match : String → List String → Dict String → Option String
direct_name_match normalized_name eol_products user_mappings =
    let merged = update name_to_eol_map user_mappings in
    let known = λ (pid : String). member pid eol_products in
    let start : Best = record { best = none; best_len = 0 } in
    let prefix = prefix_loop normalized_name known merged start in
    elim (exact_match normalized_name known merged) [
      | some pid ↦ some pid
      | none ↦ elim (truthy_text prefix.best) [
        | some pid ↦ some pid
        | none ↦ (slug_loop normalized_name eol_products prefix).best
      ]
    ]

unfoldable pub normalize_for_fuzzy : Texts → String → String
normalize_for_fuzzy py name = join_spaces (
    keep (λ t. not (member t noise_words) && ltb 1 (count t))
      (py.split (py.lower (py.without_parentheses (py.without_versions name)))))

-- `set(tokens)`, and the number of common elements.
abbrev pub token_set : List String → List String
token_set [] = []
token_set (t ∷ ts) = if member t ts then token_set ts else t ∷ token_set ts

abbrev pub overlap : List String → List String → ℕ
overlap app_tokens product_tokens = length (keep (λ t. member t app_tokens) product_tokens)

abbrev pub ratio : ℕ → ℕ → Ratio
ratio a b = record { num = a; den = b }

-- `min(score, 0.65)`
abbrev pub capped : Ratio → Ratio
capped r = if ratio_lt (ratio 65 100) r then ratio 65 100 else r

-- The score that the loop computes for one product, if any.
abbrev pub product_score : Texts → String → List String → String → String → Option Ratio
product_score py normalized_app app_tokens product_id product_name =
    let slug_clean = py.lower (py.replace "_" " " (py.replace "-" " " product_id)) in
    let product_tokens = token_set (py.split (normalize_for_fuzzy py product_name)) in
    if leb (count slug_clean) 3
    then (if member slug_clean app_tokens then some (ratio 65 100) else none)
    else if contains slug_clean normalized_app || contains normalized_app slug_clean
    then some (ratio 70 100)
    else if length product_tokens == 0
    then none
    else if overlap app_tokens product_tokens == 0
    then none
    else some (capped (ratio (overlap app_tokens product_tokens) (length product_tokens)))

-- The loop that keeps the first product with the highest score above zero.
abbrev pub best_loop :
    (String → String → Option Ratio) → Dict String → Option String × Ratio → Option String × Ratio
best_loop score [] b = b
best_loop score ((product_id, product_name) ∷ rest) b =
    best_loop score rest (elim (score product_id product_name) [
      | none ↦ b
      | some r ↦ if ratio_lt b.1 r then (some product_id, r) else b
    ])

-- `if best_match and best_score >= 0.4`
abbrev pub accept : Option String × Ratio → Option (String × Ratio)
accept (best_match, best_score) = elim (truthy_text best_match) [
  | none ↦ none
  | some pid ↦ if ratio_le (ratio 40 100) best_score then some (pid, best_score) else none
]

unfoldable pub fuzzy_match_product : Texts → String → Dict String → Option (String × Ratio)
fuzzy_match_product py app_name eol_products =
    let normalized_app = normalize_for_fuzzy py app_name in
    let app_tokens = token_set (py.split normalized_app) in
    let found =
      best_loop (product_score py normalized_app app_tokens) eol_products (none, ratio 0 1) in
    if str_eq normalized_app "" then none else if length app_tokens == 0 then none else accept found
