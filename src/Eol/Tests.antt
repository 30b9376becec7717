-- ===== src/Eol/Tests.antt =====
-- Runs of the end-of-life matching on a small catalogue, and the witnesses of its properties.
use sentora.Prelude.{
  All, ◌&&◌, Option, List, String, [], false, if◌then◌else◌, keep, length, map, none, refl, some,
  str_eq, str_eq_iff, true, ◌*◌, ◌∷◌, ◌≡◌, ◌≤◌,
}
use sentora.Collections.{Distinct}
use sentora.Eol.Best.{AtMost, fuzzy_match_product-IsBest, score_for}
use sentora.Eol.Cycles.{extract_cycle_match}
use sentora.Eol.Entities.{AppSummary, EolCycle, EolDb, MatchDoc, Texts}
use sentora.Eol.Layers.{IsLayered}
use sentora.Eol.Longest.{IsLongest, extract_cycle_match-IsLongest}
use sentora.Eol.Matching.{match_app, run_eol_matching}
use sentora.Eol.Names.{direct_name_match, fuzzy_match_product, normalize_for_fuzzy, ratio}
use sentora.Eol.Runs.{has_match, looked_at, name_of, run_eol_matching_lem}
use sentora.Eol.Tables.{name_to_eol_map, noise_words}
use mathlib.Core.List.{Memᴰ}
use mathlib.Core.Option

-- Texts in which nothing is to be removed, and "3.8.19" is the only version.
abbrev py : Texts
py = record {
  lower = λ s. s;
  split = λ s. if str_eq s "" then [] else s ∷ [];
  strip_stars = λ s. s;
  replace = λ a b s. s;
  partition = λ s. none;
  search_version = λ s. if str_eq s "3.8.19" then some ("3" ∷ "8" ∷ "19" ∷ []) else none;
  without_versions = λ s. s;
  without_parentheses = λ s. s;
  parse_date = λ s. if str_eq s "2024" then some 2024 else some 2030;
}

abbrev catalogue : EolDb
catalogue = record {
  eol_products =
      record {
        product_id = "python";
        name = some "Python";
        cycles =
            record { cycle = "3"; support_end = none; eol_date = none }
            ∷ record { cycle = "3.8"; support_end = some "2024"; eol_date = some "2024" }
            ∷ [];
      }
      ∷ [];
  name_mappings = [];
  library_entries = [];
  app_summaries =
      record {
        normalized_name = "python 3.8.19";
        display_name = none;
        category = none;
        eol_match = none;
      }
      ∷ record { normalized_name = "zoom"; display_name = none; category = none; eol_match = none }
      ∷ [];
}

abbrev products : List EolCycle
products =
    record {
      cycle = "3";
      support_end = none;
      eol_date = none;
      is_eol = false;
      is_security_only = false;
    }
    ∷ record {
      cycle = "3.8";
      support_end = some 2024;
      eol_date = some 2024;
      is_eol = true;
      is_security_only = false;
    }
    ∷ []

-- "3.8.19" is of the cycle "3.8", not of "3".
longest_wins : Option.map (λ c. c.cycle) (extract_cycle_match py "3.8.19" products) ≡ some "3.8"
unfolding extract_cycle_match
longest_wins = refl

-- A name that goes on after a space is matched by its slug.
slug_found : direct_name_match "python 3.8.19" ("python" ∷ []) [] ≡ some "python"
unfolding direct_name_match name_to_eol_map
slug_found = refl

one_matched : (run_eol_matching py ("python" ∷ []) false [] catalogue).0 ≡ 1
unfolding run_eol_matching match_app direct_name_match fuzzy_match_product normalize_for_fuzzy
    name_to_eol_map noise_words
one_matched = refl

extract_cycle_match-IsLongest_example :
    IsLongest ("3" ∷ "8" ∷ "19" ∷ []) products 3 (extract_cycle_match py "3.8.19" products)
extract_cycle_match-IsLongest_example =
    extract_cycle_match-IsLongest py "3.8.19" ("3" ∷ "8" ∷ "19" ∷ []) products refl refl

abbrev names : List (String × String)
names = ("rust", "Rust") ∷ ("python", "Python") ∷ []

by_slug : fuzzy_match_product py "python launcher" names ≡ some ("python", ratio 70 100)
unfolding fuzzy_match_product normalize_for_fuzzy noise_words
by_slug = refl

fuzzy_match_product-IsBest_example :
    ((name : String) × Memᴰ ("python", name) names
      × (score_for py "python launcher" "python" name ≡ some (ratio 70 100)))
    × (40 * 100 ≤ 70 * 100)
    × (70 * 100 ≤ 70 * 100)
    × All (λ e. AtMost (ratio 70 100) (score_for py "python launcher" e.0 e.1)) names
fuzzy_match_product-IsBest_example = fuzzy_match_product-IsBest py "python launcher" names by_slug

abbrev zoom : String
zoom = "zoom"

summaries_apart : Distinct name_of catalogue.app_summaries
summaries_apart = (((λ e. cc ((str_eq_iff zoom "python 3.8.19").1 e)), tt), (tt, tt))

run_eol_matching_example :
    (made : AppSummary → Option MatchDoc) × ((s : AppSummary)
      → IsLayered py ("python" ∷ []) catalogue s (made s))
    × ((run_eol_matching py ("python" ∷ []) false [] catalogue).1 ≡ record catalogue {
      app_summaries =
          map
            (λ s. if looked_at false [] s then record s { eol_match = made s } else s)
            catalogue.app_summaries;
    })
    × ((run_eol_matching py ("python" ∷ []) false [] catalogue).0
        ≡ length (keep (λ s. looked_at false [] s && has_match made s) catalogue.app_summaries))
run_eol_matching_example =
    run_eol_matching_lem py ("python" ∷ []) false [] catalogue summaries_apart
