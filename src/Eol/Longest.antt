-- ===== src/Eol/Longest.antt =====
-- Which release cycle a version gets (extract_cycle_match of backend/domains/eol/matching.py).
use sentora.Prelude.{
  All, Bool-cases, List, Option, Option-cases, String, [], arith, false, if◌then◌else◌, inl, inr,
  length, none, refl, some, str_eq, subst, suc, sym, take, zero, ℕ, ◌<◌, ◌==◌, ◌∙◌, ◌∷◌, ◌≡◌, ◌≤◌,
}
use sentora.Dicts.{Dict, get, get-set, set}
use sentora.Eol.Cycles.{
  cycle_map, extract_cycle_match, join_dots, longest_prefix, match_parts, year_cycle,
}
use sentora.Eol.Entities.{EolCycle, Texts}

-- The last cycle with an identifier.
abbrev pub named_cycle : String → List EolCycle → Option EolCycle
named_cycle k [] = none
named_cycle k (c ∷ cs) =
    let rest = named_cycle k cs in
    elim rest [ some d ↦ some d | none ↦ if str_eq c.cycle k then some c else none ]

get-cycle_map :
    (k : String) (cs : List EolCycle) (d : Dict EolCycle)
    → get k (cycle_map cs d) ≡ (elim (named_cycle k cs) [ some c ↦ some c | none ↦ get k d ])
get-cycle_map k [] d = refl
get-cycle_map k (c ∷ cs) d =
    get-cycle_map k cs (set c.cycle c d) ∙ elim (Option-cases (named_cycle k cs)) [
      | inr (e, found) ↦ rw found refl
      | inl gone ↦
          rw (gone, get-set k c.cycle c d)
            (elim (Bool-cases (str_eq c.cycle k)) [ inl y ↦ rw y refl | inr n ↦ rw n refl ])
    ]

get-cycles : (k : String) (cs : List EolCycle) → get k (cycle_map cs []) ≡ named_cycle k cs
get-cycles k cs = get-cycle_map k cs [] ∙ elim (Option-cases (named_cycle k cs)) [
  | inr (e, found) ↦ rw found refl
  | inl gone ↦ rw gone refl
]

-- The cycle of the first `i` components.
abbrev pub at_prefix : List String → List EolCycle → ℕ → Option EolCycle
at_prefix parts cycles i = named_cycle (join_dots (take i parts)) cycles

-- No prefix of more than `i` and at most `n` components names a cycle.
abbrev pub NoneAbove : List String → List EolCycle → ℕ → ℕ → Type 0
NoneAbove parts cycles i n = (j : ℕ) → i < j → j ≤ n → at_prefix parts cycles j ≡ none

-- The cycle is that of the longest prefix that names one.
abbrev pub IsLongest : List String → List EolCycle → ℕ → Option EolCycle → Type 0
IsLongest parts cycles n none = NoneAbove parts cycles 0 n
IsLongest parts cycles n (some c) =
    (i : ℕ) × (0 < i) × (i ≤ n) × (at_prefix parts cycles i ≡ some c) × NoneAbove parts cycles i n

module _ (parts : List String) (cycles : List EolCycle) where
  grows :
      (i n : ℕ)
      → at_prefix parts cycles (suc n) ≡ none
      → NoneAbove parts cycles i n
      → NoneAbove parts cycles i (suc n)
  grows i n gone h j lo hi = elim (Bool-cases (j == suc n)) [
    | inl y ↦ let same : j ≡ suc n = ground (arith, y) in rw same gone
    | inr other ↦ h j lo (ground (arith, other))
  ]

  extended :
      (n : ℕ) (o : Option EolCycle)
      → at_prefix parts cycles (suc n) ≡ none
      → IsLongest parts cycles n o
      → IsLongest parts cycles (suc n) o
  extended n none gone h = grows 0 n gone h
  extended n (some c) gone (i, pos, le, found, above) =
      (i, pos, omega arith, found, grows i n gone above)

  longest_prefix-IsLongest :
      (n : ℕ) → IsLongest parts cycles n (longest_prefix n parts (cycle_map cycles []))
  longest_prefix-IsLongest zero = λ j lo hi. absurd (omega arith)
  longest_prefix-IsLongest (suc n) =
      let d = cycle_map cycles [] in
      let name = join_dots (take (suc n) parts) in
      elim (Option-cases (at_prefix parts cycles (suc n))) [
        | inr (c, found) ↦
            let here : get name d ≡ some c = get-cycles name cycles ∙ found in
            let e : longest_prefix (suc n) parts d ≡ some c = rw (longest_prefix, here) refl in
            subst (IsLongest parts cycles (suc n)) (sym e)
              (suc n, omega arith, omega arith, found, λ j lo hi. absurd (omega arith))
        | inl gone ↦
            let here : get name d ≡ none = get-cycles name cycles ∙ gone in
            let e : longest_prefix (suc n) parts d ≡ longest_prefix n parts d =
              rw (longest_prefix, here) refl in
            subst (IsLongest parts cycles (suc n)) (sym e)
              (extended n (longest_prefix n parts d) gone (longest_prefix-IsLongest n))
      ]

-- The lookup of a year finds nothing that the loop has not found.
no_year :
    (parts : List String) (cycles : List EolCycle)
    → NoneAbove parts cycles 0 (length parts)
    → year_cycle parts (cycle_map cycles []) ≡ none
no_year [] cycles h = refl
no_year (p ∷ ps) cycles h = rw (get-cycles p cycles, h 1 (omega arith) (omega arith)) (ground arith)

match_parts-IsLongest :
    (parts : List String) (cycles : List EolCycle)
    → IsLongest parts cycles (length parts) (match_parts parts cycles)
match_parts-IsLongest parts cycles =
    let d = cycle_map cycles [] in
    let h = longest_prefix-IsLongest parts cycles (length parts) in
    elim (Option-cases (longest_prefix (length parts) parts d)) [
      | inr (c, found) ↦
          let e : match_parts parts cycles ≡ longest_prefix (length parts) parts d =
            rw (match_parts, found) refl in
          subst (IsLongest parts cycles (length parts)) (sym e) h
      | inl gone ↦
          let none_found = subst (IsLongest parts cycles (length parts)) gone h in
          let e : match_parts parts cycles ≡ none =
            rw (match_parts, gone, no_year parts cycles none_found) refl in
          subst (IsLongest parts cycles (length parts)) (sym e) none_found
    ]

suc_nonzero : (n : ℕ) → (suc n == 0) ≡ false
suc_nonzero n = ground arith

-- For a version in which a number with components is found, the result is the last cycle that is named
-- by the longest prefix of the components that names any cycle; and there is none exactly when no
-- prefix names one.
pub extract_cycle_match-IsLongest :
    (py : Texts) (version_string : String) (parts : List String) (cycles : List EolCycle)
    → str_eq version_string "" ≡ false
    → py.search_version version_string ≡ some parts
    → IsLongest parts cycles (length parts) (extract_cycle_match py version_string cycles)
unfolding extract_cycle_match
extract_cycle_match-IsLongest py v parts [] e s = rw e (λ j lo hi. refl)
extract_cycle_match-IsLongest py v parts (c ∷ cs) e s =
    rw (e, suc_nonzero (length cs), s) (match_parts-IsLongest parts (c ∷ cs))

named_cycle-All {κ} :
    (P : EolCycle → Type κ) (k : String) (cs : List EolCycle) {c : EolCycle}
    → named_cycle k cs ≡ some c
    → All P cs
    → P c
named_cycle-All P k [] e h = cc e
named_cycle-All P k (b ∷ cs) {c} e h = elim (Option-cases (named_cycle k cs)) [
  | inr (d, found) ↦
      let here : some d ≡ some c = rw found at e in named_cycle-All P k cs (found ∙ here) h.1
  | inl gone ↦ elim (Bool-cases (str_eq b.cycle k)) [
    | inr n ↦ let wrong : none ≡ some c = rw (gone, n) at e in cc wrong
    | inl y ↦ let here : some b ≡ some c = rw (gone, y) at e in subst P (ground (arith, here)) h.0
  ]
]

longest-All {κ} :
    (P : EolCycle → Type κ) (parts : List String) (cycles : List EolCycle) (n : ℕ)
    (o : Option EolCycle) {c : EolCycle}
    → IsLongest parts cycles n o
    → o ≡ some c
    → All P cycles
    → P c
longest-All P parts cycles n none l e h = cc e
longest-All P parts cycles n (some d) {c} (i, pos, le, found, above) e h =
    named_cycle-All P (join_dots (take i parts)) cycles (found ∙ e) h

-- A cycle that is found is one of the product's.
pub extract_cycle_match-All {κ} :
    (P : EolCycle → Type κ) (py : Texts) (v : String) (cycles : List EolCycle) {c : EolCycle}
    → extract_cycle_match py v cycles ≡ some c
    → All P cycles
    → P c
unfolding extract_cycle_match
extract_cycle_match-All P py v [] {c} e h = elim (Bool-cases (str_eq v "")) [
  | inl y ↦ let wrong : none ≡ some c = rw y at e in cc wrong
  | inr n ↦ let wrong : none ≡ some c = rw n at e in cc wrong
]
extract_cycle_match-All P py v (b ∷ cs) {c} e h =
    let full = suc_nonzero (length cs) in
    elim (Bool-cases (str_eq v "")) [
      | inl y ↦ let wrong : none ≡ some c = rw y at e in cc wrong
      | inr n ↦ elim (Option-cases (py.search_version v)) [
        | inl gone ↦ let wrong : none ≡ some c = rw (n, full, gone) at e in cc wrong
        | inr (parts, found) ↦
            let matched : match_parts parts (b ∷ cs) ≡ some c = rw (n, full, found) at e in
            longest-All P parts (b ∷ cs) (length parts) (match_parts parts (b ∷ cs))
              (match_parts-IsLongest parts (b ∷ cs)) matched h
      ]
    ]
