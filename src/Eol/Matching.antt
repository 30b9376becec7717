-- ===== src/Eol/Matching.antt =====
-- run_eol_matching of backend/domains/eol/matching.py. The cursor sees the summaries as they are when
-- it starts, of which the loop reads names alone.
use sentora.Prelude.{
  Bool, List, Option, String, [], if◌then◌else◌, keep, ltb, none, not, some, str_eq, suc, true, ℕ,
  ◌&&◌, ◌||◌, ◌∷◌,
}
use sentora.Collections.{update_one}
use sentora.Dicts.{Dict, set}
use sentora.Eol.Entities.{AppSummary, EolDb, LibraryEntry, MatchDoc, ProductDoc, Ratio, Texts}
use sentora.Eol.Names.{
  contains, cpe_to_eol_product, direct_name_match, fuzzy_match_product, ratio, truthy_text,
}
use sentora.Scope.{member}
use Prim.Native.String.{count}

-- `get_all_name_mappings_dict`
abbrev pub read_mappings : List (String × String) → Dict String → Dict String
read_mappings [] d = d
read_mappings ((p, pid) ∷ rest) d = read_mappings rest (set p pid d)

-- `doc.get(k, default)`
abbrev pub text_or : String → Option String → String
text_or d none = d
text_or d (some s) = s

abbrev pub product_names : List ProductDoc → Dict String → Dict String
product_names [] d = d
product_names (p ∷ ps) d = product_names ps (set p.product_id (text_or p.product_id p.name) d)

-- The patterns of one entry, and of all entries of NIST's catalogue.
abbrev pub add_patterns :
    Texts → String × String → List String → Dict (String × String) → Dict (String × String)
add_patterns py vp [] d = d
add_patterns py vp (p ∷ ps) d =
    let pattern = py.strip_stars (py.lower p) in
    add_patterns py vp ps (if ltb 2 (count pattern) then set pattern vp d else d)

abbrev pub cpe_map : Texts → List LibraryEntry → Dict (String × String) → Dict (String × String)
cpe_map py [] d = d
cpe_map py (e ∷ es) d = cpe_map py es (
    if str_eq e.source "nist_cpe"
    then elim (py.partition e.upstream_id) [
      | none ↦ d
      | some (vendor, product) ↦
          if str_eq vendor "" || str_eq product ""
          then d
          else add_patterns py (vendor, product) e.patterns d
    ]
    else d)

abbrev pub match_doc : String → String → Ratio → MatchDoc
match_doc pid source confidence = record {
  eol_product_id = pid;
  match_source = source;
  match_confidence = confidence;
}

-- The product of a pattern's vendor and product, if it is known.
abbrev pub cpe_product : Texts → List String → String × String → Option String
cpe_product py eol_products (vendor, product) = elim (cpe_to_eol_product py vendor product) [
  | none ↦ none
  | some pid ↦ if not (str_eq pid "") && member pid eol_products then some pid else none
]

-- The second layer: the first pattern that names a known product.
abbrev pub cpe_layer : Texts → List String → String → Dict (String × String) → Option String
cpe_layer py eol_products nname [] = none
cpe_layer py eol_products nname ((pattern, vp) ∷ rest) =
    let later = cpe_layer py eol_products nname rest in
    if contains pattern nname || contains nname pattern
    then elim (cpe_product py eol_products vp) [ some pid ↦ some pid | none ↦ later ]
    else later

-- The third layer.
abbrev pub fuzzy_layer : Texts → List String → String → Dict String → Option MatchDoc
fuzzy_layer py eol_products display_name names = elim (fuzzy_match_product py display_name names) [
  | none ↦ none
  | some (pid, confidence) ↦
      if member pid eol_products then some (match_doc pid "fuzzy" confidence) else none
]

-- What the layers make of one application. A direct match counts if its text is not empty.
unfoldable pub match_app : Texts → List String → EolDb → AppSummary → Option MatchDoc
match_app py eol_products db doc =
    let nname = doc.normalized_name in
    let user_mappings = read_mappings db.name_mappings [] in
    let direct = direct_name_match nname eol_products user_mappings in
    let by_cpe = cpe_layer py eol_products nname (cpe_map py db.library_entries []) in
    let by_name =
      fuzzy_layer py eol_products (text_or nname doc.display_name)
        (product_names db.eol_products []) in
    elim (truthy_text direct) [
      | some pid ↦ some (match_doc pid "cpe" (ratio 95 100))
      | none ↦ elim by_cpe [ some pid ↦ some (match_doc pid "cpe" (ratio 90 100)) | none ↦ by_name ]
    ]

abbrev pub set_match : Option MatchDoc → AppSummary → AppSummary
set_match m s = record s { eol_match = m }

abbrev pub named : String → AppSummary → Bool
named nname s = str_eq s.normalized_name nname

-- The loop over the documents of the cursor; the matches do not read what it writes.
abbrev pub match_loop :
    (AppSummary → Option MatchDoc) → List AppSummary → List AppSummary → ℕ → ℕ × List AppSummary
match_loop match [] summaries matched = (matched, summaries)
match_loop match (doc ∷ docs) summaries matched =
    let m = match doc in
    match_loop match docs (update_one (named doc.normalized_name) (set_match m) summaries)
      (elim m [ none ↦ matched | some d ↦ suc matched ])

-- `{}`, or the changed names where there are some.
abbrev pub in_query : Bool → List String → AppSummary → Bool
in_query delta_only [] s = true
in_query delta_only (n ∷ ns) s = if delta_only then member s.normalized_name (n ∷ ns) else true

-- The products by their ids alone, as the loop reads them.
unfoldable pub run_eol_matching : Texts → List String → Bool → List String → EolDb → ℕ × EolDb
run_eol_matching py eol_products delta_only changed_app_names db =
    let docs = keep (in_query delta_only changed_app_names) db.app_summaries in
    let (matched, summaries) = match_loop (match_app py eol_products db) docs db.app_summaries 0 in
    (matched, record db { app_summaries = summaries })
