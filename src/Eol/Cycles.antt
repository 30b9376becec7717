-- ===== src/Eol/Cycles.antt =====
-- The release cycle of a version, and whether it has ended: backend/domains/eol/matching.py and
-- repository.py.
use sentora.Prelude.{
  Bool, List, Option, String, [], false, if◌then◌else◌, leb, length, ltb, map, none, some, str_eq,
  suc, take, true, zero, ℕ, ◌&&◌, ◌==◌, ◌||◌, ◌∷◌,
}
use sentora.Dicts.{Dict, get, set}
use sentora.Eol.Entities.{CycleDoc, EolCycle, EolDb, EolMatch, ProductDoc, Ratio, Texts}
use Prim.Native.String.{count, ◌++◌ as ◌⧺◌}

-- `".".join(parts)`
abbrev pub join_dots : List String → String
join_dots [] = ""
join_dots (s ∷ []) = s
join_dots (s ∷ t ∷ ss) = s ⧺ ("." ⧺ join_dots (t ∷ ss))

-- `{c.cycle: c for c in cycles}`
abbrev pub cycle_map : List EolCycle → Dict EolCycle → Dict EolCycle
cycle_map [] d = d
cycle_map (c ∷ cs) d = cycle_map cs (set c.cycle c d)

-- The loop over ever shorter prefixes.
abbrev pub longest_prefix : ℕ → List String → Dict EolCycle → Option EolCycle
longest_prefix zero parts d = none
longest_prefix (suc i) parts d =
    let shorter = longest_prefix i parts d in
    elim (get (join_dots (take (suc i) parts)) d) [ none ↦ shorter | some c ↦ some c ]

-- The last lookup, of a first component with four characters.
abbrev pub year_cycle : List String → Dict EolCycle → Option EolCycle
year_cycle [] d = none
year_cycle (p ∷ ps) d = if count p == 4 then get p d else none

abbrev pub match_parts : List String → List EolCycle → Option EolCycle
match_parts parts cycles =
    let d = cycle_map cycles [] in
    elim (longest_prefix (length parts) parts d) [ none ↦ year_cycle parts d | some c ↦ some c ]

unfoldable pub extract_cycle_match : Texts → String → List EolCycle → Option EolCycle
extract_cycle_match py version_string cycles =
    if str_eq version_string "" || (length cycles == 0)
    then none
    else elim (py.search_version version_string) [
      | none ↦ none
      | some parts ↦ match_parts parts cycles
    ]

-- `bool(d and d < today)`
abbrev pub has_passed : ℕ → Option ℕ → Bool
has_passed today none = false
has_passed today (some d) = ltb d today

-- `not d or d >= today`
abbrev pub not_passed : ℕ → Option ℕ → Bool
not_passed today none = true
not_passed today (some d) = leb today d

-- `today` is the reference date, or the date of the call.
unfoldable pub compute_eol_match :
    Texts → String → String → List EolCycle → String → Ratio → ℕ → Option EolMatch
compute_eol_match py eol_product_id version_string cycles match_source match_confidence today =
    elim (extract_cycle_match py version_string cycles) [
      | none ↦ none
      | some c ↦ some (record {
        eol_product_id = eol_product_id;
        matched_cycle = c.cycle;
        match_source = match_source;
        match_confidence = match_confidence;
        is_eol = has_passed today c.eol_date;
        eol_date = c.eol_date;
        is_security_only = has_passed today c.support_end && not_passed today c.eol_date;
        support_end = c.support_end;
      })
    ]

abbrev pub parse_optional : Texts → Option String → Option ℕ
parse_optional py none = none
parse_optional py (some s) = py.parse_date s

abbrev pub parse_cycle : Texts → ℕ → CycleDoc → EolCycle
parse_cycle py today c =
    let eol_date = parse_optional py c.eol_date in
    let support_end = parse_optional py c.support_end in
    record {
      cycle = c.cycle;
      support_end = support_end;
      eol_date = eol_date;
      is_eol = has_passed today eol_date;
      is_security_only = has_passed today support_end && not_passed today eol_date;
    }

abbrev pub read_products : Texts → ℕ → List ProductDoc → Dict (List EolCycle) → Dict (List EolCycle)
read_products py today [] d = d
read_products py today (p ∷ ps) d =
    read_products py today ps (set p.product_id (map (parse_cycle py today) p.cycles) d)

unfoldable pub get_all_products_with_cycles : Texts → ℕ → EolDb → Dict (List EolCycle)
get_all_products_with_cycles py today db = read_products py today db.eol_products []
