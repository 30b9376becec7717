-- ===== src/Eol/Runs.antt =====
-- What a run of run_eol_matching writes (backend/domains/eol/matching.py).
use sentora.Prelude.{
  Bool, Bool-cases, any, ap, not, str_eq, ◌&&◌, ◌||◌, ◌==◌, inl, inr, List, Option, Option-cases,
  String, [], arith, false, if◌then◌else◌, inl, inr, keep, length, map, none, refl, some, suc, true,
  ℕ, ◌+◌, ◌∙◌, ◌∷◌, ◌≡◌,
}
use sentora.Collections.{Distinct, update_one}
use sentora.Collections.Folds.{each, each-keep}
use sentora.Collections.Uniqueness.{Distinct-keep}
use sentora.Eol.Entities.{AppSummary, EolDb, MatchDoc, Texts}
use sentora.Eol.Matching.{in_query, match_app, match_loop, named, run_eol_matching, set_match}
use sentora.Eol.Layers.{IsLayered, match_app-IsLayered}

abbrev pub name_of : AppSummary → String
name_of s = s.normalized_name

module _ (match : AppSummary → Option MatchDoc) where
  match_loop-each :
      (docs xs : List AppSummary) (n : ℕ)
      → (match_loop match docs xs n).1
        ≡ each name_of (λ d s. set_match (match d) s) (λ d s. refl) docs xs
  match_loop-each [] xs n = refl
  match_loop-each (d ∷ docs) xs n =
      match_loop-each docs (update_one (named d.normalized_name) (set_match (match d)) xs) _

  -- The documents that get a match.
  abbrev pub has_match : AppSummary → Bool
  has_match d = elim (match d) [ none ↦ false | some m ↦ true ]

  match_loop-count :
      (docs xs : List AppSummary) (n : ℕ)
      → (match_loop match docs xs n).0 ≡ n + length (keep has_match docs)
  match_loop-count [] xs n = omega arith
  match_loop-count (d ∷ docs) xs n = elim (Option-cases (match d)) [
    | inl gone ↦
        rw (match_loop, has_match, gone)
          (match_loop-count docs (update_one (named d.normalized_name) (set_match none) xs) n)
    | inr (m, found) ↦
        rw (match_loop, has_match, found)
          (match_loop-count docs (update_one (named d.normalized_name) (set_match (some m)) xs)
              (suc n)
            ∙ omega arith)
  ]

-- What a run looks at: every application, but for a run on changed names, where there are some, those
-- with one of them.
abbrev pub looked_at : Bool → List String → AppSummary → Bool
looked_at delta_only changed s =
    not delta_only || (length changed == 0 || any (str_eq s.normalized_name) changed)

in_query-looked_at :
    (delta_only : Bool) (changed : List String) (s : AppSummary)
    → in_query delta_only changed s ≡ looked_at delta_only changed s
in_query-looked_at true [] s = refl
in_query-looked_at false [] s = refl
in_query-looked_at true (n ∷ ns) s = ground arith
in_query-looked_at false (n ∷ ns) s = refl

module _ (match : AppSummary → Option MatchDoc) (delta_only : Bool) (changed : List String) where
  map-looked_at :
      (xs : List AppSummary)
      → map (λ s. if in_query delta_only changed s then set_match (match s) s else s) xs
        ≡ map
            (λ s. if looked_at delta_only changed s then record s { eol_match = match s } else s)
            xs
  map-looked_at [] = refl
  map-looked_at (x ∷ xs) = rw (in_query-looked_at delta_only changed x, map-looked_at xs) refl

  count-looked_at :
      (xs : List AppSummary)
      → length (keep (has_match match) (keep (in_query delta_only changed) xs))
        ≡ length (keep (λ s. looked_at delta_only changed s && has_match match s) xs)
  count-looked_at [] = refl
  count-looked_at (x ∷ xs) = elim (Bool-cases (looked_at delta_only changed x)) [
    | inr n ↦ rw (in_query-looked_at delta_only changed x, n) (count-looked_at xs)
    | inl y ↦ elim (Bool-cases (has_match match x)) [
      | inr m ↦ rw (in_query-looked_at delta_only changed x, y, m) (count-looked_at xs)
      | inl m ↦
          rw (in_query-looked_at delta_only changed x, y, m) (ap (λ k. suc k) (count-looked_at xs))
    ]
  ]

-- Where no two summaries have one name, a run gives to each that it looks at what its layers make of it
-- alone, clears what was there before if they make nothing, leaves the others as they were, and returns
-- the number of those with a match. A match is always of a product of the catalogue; a direct name
-- comes before a pattern of NIST's, and both, with their fixed confidences, before the fuzzy match of
-- the display name, with its own.
pub run_eol_matching_lem :
    (py : Texts) (eol_products : List String) (delta_only : Bool) (changed : List String)
    (db : EolDb)
    → Distinct name_of db.app_summaries
    → (made : AppSummary → Option MatchDoc) × ((s : AppSummary)
        → IsLayered py eol_products db s (made s))
      × ((run_eol_matching py eol_products delta_only changed db).1 ≡ record db {
        app_summaries =
            map
              (λ s. if looked_at delta_only changed s then record s { eol_match = made s } else s)
              db.app_summaries;
      })
      × ((run_eol_matching py eol_products delta_only changed db).0
          ≡ length
              (keep (λ s. looked_at delta_only changed s && has_match made s) db.app_summaries))
unfolding run_eol_matching
run_eol_matching_lem py eol_products delta_only changed db apart =
    let q = in_query delta_only changed in
    let match = match_app py eol_products db in
    let xs = db.app_summaries in
    (
      match,
      match_app-IsLayered py eol_products db,
      ap (λ ys. record db { app_summaries = ys })
          (match_loop-each match (keep q xs) xs 0
            ∙ (each-keep name_of (λ d s. set_match (match d) s) (λ d s. refl) q xs
                  (Distinct-keep name_of q xs apart) apart
                ∙ map-looked_at match delta_only changed xs)),
      match_loop-count match (keep q xs) xs 0
          ∙ omega (arith, count-looked_at match delta_only changed xs),
    )
