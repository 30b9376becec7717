-- ===== src/Eol/Lifecycle.antt =====
-- Whether a matched cycle has ended: what repository.py computes when it reads the cycles, and what
-- compute_eol_match of backend/domains/eol/matching.py computes from the dates.
use sentora.Prelude.{
  All, Bool, Bool-cases, List, Option, Option-cases, String, [], arith, false, inl, inr, map, none,
  refl, some, str_eq, subst, true, ℕ, ◌&&◌, ◌∙◌, ◌∷◌, ◌≡◌,
}
use sentora.Dicts.{Dict, get, get-set, set}
use sentora.Eol.Cycles.{
  compute_eol_match, extract_cycle_match, get_all_products_with_cycles, has_passed, not_passed,
  parse_cycle, read_products,
}
use sentora.Eol.Entities.{CycleDoc, EolCycle, EolDb, EolMatch, ProductDoc, Ratio, Texts}
use sentora.Eol.Longest.{extract_cycle_match-All}

-- The flags of a cycle are those of its dates.
abbrev pub IsDated : ℕ → EolCycle → Type 0
IsDated today c =
    (c.is_eol ≡ has_passed today c.eol_date)
    × (c.is_security_only ≡ (has_passed today c.support_end && not_passed today c.eol_date))

parsed-IsDated :
    (py : Texts) (today : ℕ) (cs : List CycleDoc)
    → All (IsDated today) (map (parse_cycle py today) cs)
parsed-IsDated py today [] = tt
parsed-IsDated py today (c ∷ cs) = ((refl, refl), parsed-IsDated py today cs)

abbrev Dated : ℕ → Option (List EolCycle) → Type 0
Dated today none = Unit
Dated today (some cs) = All (IsDated today) cs

read_products-Dated :
    (py : Texts) (today : ℕ) (ps : List ProductDoc) (d : Dict (List EolCycle)) (k : String)
    → Dated today (get k d)
    → Dated today (get k (read_products py today ps d))
read_products-Dated py today [] d k h = h
read_products-Dated py today (p ∷ ps) d k h =
    let cycles = map (parse_cycle py today) p.cycles in
    read_products-Dated py today ps (set p.product_id cycles d) k (
      rw (get-set k p.product_id cycles d) (elim (Bool-cases (str_eq p.product_id k)) [
        | inl y ↦ rw y (parsed-IsDated py today p.cycles)
        | inr n ↦ rw n h
      ]))

exclusive :
    (today : ℕ) (eol_date : Option ℕ) (b : Bool)
    → has_passed today eol_date ≡ true
    → (b && not_passed today eol_date) ≡ false
exclusive today none b h = cc h
exclusive today (some d) b h = ground (arith, h)

-- The cycles of a product, as they are read on a day, and a match against them on that day: the match
-- is of the cycle that the version gets, with the flags that the cycle was read with, and no cycle is
-- both past its end of life and in security-only support.
pub compute_eol_match-flags :
    (py : Texts) (today : ℕ) (db : EolDb) (product_id version_string source : String)
    (confidence : Ratio) {cycles : List EolCycle} {m : EolMatch}
    → get product_id (get_all_products_with_cycles py today db) ≡ some cycles
    → compute_eol_match py product_id version_string cycles source confidence today ≡ some m
    → (c : EolCycle) × (extract_cycle_match py version_string cycles ≡ some c)
      × (m.matched_cycle ≡ c.cycle)
      × (m.is_eol ≡ c.is_eol)
      × (m.is_security_only ≡ c.is_security_only)
      × (m.is_eol ≡ true → m.is_security_only ≡ false)
unfolding compute_eol_match get_all_products_with_cycles
compute_eol_match-flags py today db pid v source confidence {cycles} {m} held e =
    elim (Option-cases (extract_cycle_match py v cycles)) [
      | inl gone ↦ let wrong : none ≡ some m = rw (compute_eol_match, gone) at e in cc wrong
      | inr (c, found) ↦
          let dated : All (IsDated today) cycles =
            subst (Dated today) held (read_products-Dated py today db.eol_products [] pid tt) in
          let flags : IsDated today c =
            extract_cycle_match-All (IsDated today) py v cycles found dated in
          let made = rw (compute_eol_match, found) at e in
          let eol : has_passed today c.eol_date ≡ m.is_eol = cc in
          let ended = exclusive today c.eol_date (has_passed today c.support_end) in
          (c, found, cc made, cc (made, flags.0), cc (made, flags.1), λ h. cc (ended (eol ∙ h)))
    ]
