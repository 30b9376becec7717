-- ===== src/Compliance/Checks/Fuzzy.antt =====
-- That eol_software.py of backend/domains/compliance/checks leaves fuzzy matches out.
use sentora.Prelude.{
  Bool, Bool-cases, List, Option, Option-cases, if◌then◌else◌, none, some, String, [], false, inl,
  inr, keep, map, refl, str_eq, str_eq_iff, true, ℕ, ◌||◌, ◌∷◌, ◌≡◌,
}
use sentora.Compliance.Checks.{Fleet, Host}
use sentora.Compliance.Checks.EndOfLife.{eol_software, is_eligible}
use sentora.Compliance.Entities.{Parameters}
use sentora.Eol.Entities.{AppSummary, MatchDoc, Ratio, ratio_le}
use sentora.Scope.{ScopeFilter}

-- A fuzzy match, and a summary without it.
abbrev pub is_fuzzy : Option MatchDoc → Bool
is_fuzzy none = false
is_fuzzy (some m) = str_eq m.match_source "fuzzy"

abbrev pub without_fuzzy : AppSummary → AppSummary
without_fuzzy s = if is_fuzzy s.eol_match then record s { eol_match = none } else s

not_fuzzy :
    (source : String)
    → str_eq source "fuzzy" ≡ true
    → (str_eq source "cpe" || str_eq source "manual") ≡ false
not_fuzzy source e = rw ((str_eq_iff source "fuzzy").0 e) refl

fuzzy-ineligible :
    (c : Ratio) (excluded : List String) (s : AppSummary)
    → is_fuzzy s.eol_match ≡ true
    → is_eligible c excluded s ≡ false
fuzzy-ineligible c excluded s e = elim (Option-cases s.eol_match) [
  | inl gone ↦ rw gone refl
  | inr (m, held) ↦
      let source : str_eq m.match_source "fuzzy" ≡ true = rw held at e in
      rw (held, not_fuzzy m.match_source source)
        (elim (Bool-cases (ratio_le c m.match_confidence)) [
          | inl y ↦ rw y refl
          | inr n ↦ rw n refl
        ])
]

keep-without_fuzzy :
    (c : Ratio) (excluded : List String) (xs : List AppSummary)
    → keep (is_eligible c excluded) (map without_fuzzy xs) ≡ keep (is_eligible c excluded) xs
keep-without_fuzzy c excluded [] = refl
keep-without_fuzzy c excluded (s ∷ xs) = elim (Bool-cases (is_fuzzy s.eol_match)) [
  | inl y ↦ rw (y, fuzzy-ineligible c excluded s y) (keep-without_fuzzy c excluded xs)
  | inr n ↦ rw (n, keep-without_fuzzy c excluded xs) refl
]

-- The findings of the end-of-life check, all of them, are the same when every fuzzy match is taken off
-- the summaries, whatever its confidence and whatever the parameters.
pub eol_software-ignores_fuzzy :
    (host : Host) (fleet : Fleet) (now : ℕ) (ps : Parameters) (f : ScopeFilter)
    → eol_software host fleet now ps f
      ≡ eol_software host
          (record fleet { app_summaries = map without_fuzzy fleet.app_summaries })
          now
          ps
          f
unfolding eol_software
eol_software-ignores_fuzzy host fleet now ps f =
    rw
      (keep-without_fuzzy
        (host.get_ratio "min_match_confidence" (record { num = 80; den = 100 }) ps)
        (host.get_texts "exclude_products" ps) fleet.app_summaries)
      refl
