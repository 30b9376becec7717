-- ===== src/Eol/Layers.antt =====
-- Which match an application gets in a run of run_eol_matching (backend/domains/eol/matching.py).
use sentora.Prelude.{
  All, Bool, Bool-cases, List, Option, Option-cases, String, [], false, if◌then◌else◌, inl, inr,
  none, not, refl, some, str_eq, str_eq_iff, subst, ltb, ℕ, true, ◌&&◌, ◌||◌, ◌⊎◌, ◌∷◌, ◌≡◌, arith,
}
use sentora.Collections.Uniqueness.{All-map}
use sentora.Dicts.{Dict, get, update}
use sentora.Eol.Entities.{AppSummary, EolDb, MatchDoc, Ratio, Texts}
use sentora.Eol.Matching.{
  cpe_layer, cpe_map, cpe_product, fuzzy_layer, match_app, match_doc, product_names, read_mappings,
  text_or,
}
use sentora.Eol.Names.{
  Best, contains, cpe_to_eol_product, direct_name_match, exact_match, fuzzy_match_product,
  prefix_loop, ratio, slug_loop, truthy_text,
}
use sentora.Eol.Tables.{name_to_eol_map}
use sentora.Scope.{member}
use Prim.Native.String.{count}
use text.Mathlib.Text.{starts_with}

abbrev pub doc : String → String → Ratio → MatchDoc
doc pid source confidence = record {
  eol_product_id = pid;
  match_source = source;
  match_confidence = confidence;
}

-- No text, or the empty one.
abbrev pub Nothing : Option String → Type 0
Nothing o = (o ≡ none) ⊎ (o ≡ some "")

Nothing-truthy_text : (o : Option String) → Nothing o → truthy_text o ≡ none
Nothing-truthy_text o (inl gone) = rw gone refl
Nothing-truthy_text o (inr empty) = rw empty refl

-- The match of an application: of a known product, and from the first layer that gives a product.
pub record IsLayered (py : Texts) (products : List String) (db : EolDb) (s : AppSummary)
    (m : Option MatchDoc) : Type 0 where
  pub known : (d : MatchDoc) → m ≡ some d → member d.eol_product_id products ≡ true
  pub direct :
      (pid : String)
      → direct_name_match s.normalized_name products (read_mappings db.name_mappings []) ≡ some pid
      → str_eq pid "" ≡ false
      → m ≡ some (doc pid "cpe" (record { num = 95; den = 100 }))
  pub pattern :
      (pid : String)
      → Nothing (direct_name_match s.normalized_name products (read_mappings db.name_mappings []))
      → cpe_layer py products s.normalized_name (cpe_map py db.library_entries []) ≡ some pid
      → m ≡ some (doc pid "cpe" (record { num = 90; den = 100 }))
  pub fuzzy :
      Nothing (direct_name_match s.normalized_name products (read_mappings db.name_mappings []))
      → cpe_layer py products s.normalized_name (cpe_map py db.library_entries []) ≡ none
      → m
        ≡ (elim (fuzzy_match_product py
            (text_or s.normalized_name s.display_name)
            (product_names db.eol_products [])) [
              | none ↦ none
              | some e ↦ (if member e.0 products then some (doc e.0 "fuzzy" e.1) else none)
            ])

-- A result that is a known product, if there is one.
abbrev KnownIn : List String → Option String → Type 0
KnownIn products o = (pid : String) → o ≡ some pid → member pid products ≡ true

none-KnownIn : (products : List String) → KnownIn products none
none-KnownIn products pid e = cc e

some-KnownIn :
    (products : List String) (p : String) → member p products ≡ true → KnownIn products (some p)
some-KnownIn products p h pid e =
    let same : p ≡ pid = cc e in subst (λ q. member q products ≡ true) same h

module _ (products : List String) where
  abbrev known_in : String → Bool
  known_in pid = member pid products

  -- A step of a loop that takes a product only under a test that it passes.
  step-KnownIn :
      (t : Bool) (p : String) (n : ℕ) (b : Best)
      → (t ≡ true → member p products ≡ true)
      → KnownIn products b.best
      → KnownIn products (if t then record { best = some p; best_len = n } else b).best
  step-KnownIn true p n b h k = some-KnownIn products p (h refl)
  step-KnownIn false p n b h k = k

  prefix_loop-KnownIn :
      (name : String) (d : Dict String) (b : Best)
      → KnownIn products b.best
      → KnownIn products (prefix_loop name known_in d b).best
  prefix_loop-KnownIn name [] b h = h
  prefix_loop-KnownIn name ((key, pid) ∷ d) b h = prefix_loop-KnownIn name d _ (
      step-KnownIn _ pid (count key) b
        (λ t. last_and (ltb b.best_len (count key)) (starts_with name key) (member pid products) t)
        h)
    where
      last_and : (x y z : Bool) → (x && (y && z)) ≡ true → z ≡ true
      last_and x y z e = ground (arith, e)

  slug_loop-KnownIn :
      (name : String) (slugs : List String) (b : Best)
      → All (λ s. member s products ≡ true) slugs
      → KnownIn products b.best
      → KnownIn products (slug_loop name slugs b).best
  slug_loop-KnownIn name [] b all h = h
  slug_loop-KnownIn name (s ∷ slugs) b all h =
      slug_loop-KnownIn name slugs _ all.1 (step-KnownIn _ s (count s) b (λ t. all.0) h)

  exact_match-KnownIn :
      (name : String) (d : Dict String) → KnownIn products (exact_match name known_in d)
  exact_match-KnownIn name d = elim (Option-cases (get name d)) [
    | inl gone ↦ rw (exact_match, gone) (none-KnownIn products)
    | inr (p, held) ↦ elim (Bool-cases (member p products)) [
      | inl y ↦ rw (exact_match, held, y) (some-KnownIn products p y)
      | inr n ↦ rw (exact_match, held, n) (none-KnownIn products)
    ]
  ]

  truthy_text-KnownIn : (o : Option String) → KnownIn products o → KnownIn products (truthy_text o)
  truthy_text-KnownIn none h = h
  truthy_text-KnownIn (some s) h = elim (Bool-cases (str_eq s "")) [
    | inl y ↦ rw y (none-KnownIn products)
    | inr n ↦ rw n h
  ]

  members : (xs : List String) → All (λ s. member s xs ≡ true) xs
  members [] = tt
  members (x ∷ xs) =
      (rw ((str_eq_iff x x).1 refl) refl, All-map xs (λ s h. ground (arith, h)) (members xs))

  direct_name_match-KnownIn :
      (name : String) (user : Dict String) → KnownIn products (direct_name_match name products user)
  unfolding direct_name_match
  direct_name_match-KnownIn name user =
      let merged = update name_to_eol_map user in
      let prefix = prefix_loop name known_in merged (record { best = none; best_len = 0 }) in
      let in_prefix = prefix_loop-KnownIn name merged _ (none-KnownIn products) in
      elim (Option-cases (exact_match name known_in merged)) [
        | inr (p, found) ↦
            rw (direct_name_match, found)
              (some-KnownIn products p (exact_match-KnownIn name merged p found))
        | inl gone ↦ elim (Option-cases (truthy_text prefix.best)) [
          | inr (p, found) ↦
              rw (direct_name_match, gone, found)
                (some-KnownIn products p (truthy_text-KnownIn prefix.best in_prefix p found))
          | inl empty ↦
              rw (direct_name_match, gone, empty)
                (slug_loop-KnownIn name products prefix (members products) in_prefix)
        ]
      ]

  cpe_layer-KnownIn :
      (py : Texts) (name : String) (d : Dict (String × String))
      → KnownIn products (cpe_layer py products name d)
  cpe_layer-KnownIn py name [] = none-KnownIn products
  cpe_layer-KnownIn py name ((pattern, vp) ∷ d) =
      let later = cpe_layer-KnownIn py name d in
      elim (Bool-cases (contains pattern name || contains name pattern)) [
        | inr n ↦ rw n later
        | inl y ↦ elim (Option-cases (cpe_to_eol_product py vp.0 vp.1)) [
          | inl gone ↦ rw (y, cpe_product, gone) later
          | inr (p, found) ↦ elim (Bool-cases (not (str_eq p "") && member p products)) [
            | inr n ↦ rw (y, cpe_product, found, n) later
            | inl t ↦ rw (y, cpe_product, found, t) (some-KnownIn products p (ground (arith, t)))
          ]
        ]
      ]

  fuzzy_layer-known :
      (py : Texts) (display : String) (names : Dict String) (d : MatchDoc)
      → fuzzy_layer py products display names ≡ some d
      → member d.eol_product_id products ≡ true
  fuzzy_layer-known py display names d e =
      elim (Option-cases (fuzzy_match_product py display names)) [
        | inl gone ↦ let wrong : none ≡ some d = rw (fuzzy_layer, gone) at e in cc wrong
        | inr (m, found) ↦ elim (Bool-cases (member m.0 products)) [
          | inr n ↦ let wrong : none ≡ some d = rw (fuzzy_layer, found, n) at e in cc wrong
          | inl y ↦
              let made : some (match_doc m.0 "fuzzy" m.1) ≡ some d =
                rw (fuzzy_layer, found, y) at e in
              let same : match_doc m.0 "fuzzy" m.1 ≡ d = cc made in
              subst (λ x. member x.eol_product_id products ≡ true) same y
        ]
      ]

pub match_app-IsLayered :
    (py : Texts) (products : List String) (db : EolDb) (s : AppSummary)
    → IsLayered py products db s (match_app py products db s)
unfolding match_app
match_app-IsLayered py products db s =
    let name = s.normalized_name in
    let user = read_mappings db.name_mappings [] in
    let o = direct_name_match name products user in
    let patterns = cpe_map py db.library_entries [] in
    record {
      known = λ d made. elim (Option-cases (truthy_text o)) [
        | inr (pid, found) ↦
            let here : some (match_doc pid "cpe" (ratio 95 100)) ≡ some d =
              rw (match_app, found) at made in
            let same : match_doc pid "cpe" (ratio 95 100) ≡ d = cc here in
            subst (λ x. member x.eol_product_id products ≡ true) same
              (truthy_text-KnownIn products o (direct_name_match-KnownIn products name user) pid
                found)
        | inl empty ↦ elim (Option-cases (cpe_layer py products name patterns)) [
          | inr (pid, found) ↦
              let here : some (match_doc pid "cpe" (ratio 90 100)) ≡ some d =
                rw (match_app, empty, found) at made in
              let same : match_doc pid "cpe" (ratio 90 100) ≡ d = cc here in
              subst (λ x. member x.eol_product_id products ≡ true) same
                (cpe_layer-KnownIn products py name patterns pid found)
          | inl absent ↦
              fuzzy_layer-known products py (text_or name s.display_name)
                (product_names db.eol_products []) d (rw (match_app, empty, absent) at made)
        ]
      ];
      direct = λ pid found full.
          let taken : truthy_text o ≡ some pid = rw (found, full) refl in
          rw (match_app, taken) refl;
      pattern = λ pid empty found. rw (match_app, Nothing-truthy_text o empty, found) refl;
      fuzzy = λ empty absent. rw (match_app, Nothing-truthy_text o empty, absent) refl;
    }
