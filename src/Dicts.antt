-- ===== src/Dicts.antt =====
-- Python's dictionaries with texts as keys, as lists of their entries in the order of insertion.
use sentora.Prelude.{
  Bool, Bool-cases, List, Option, String, [], false, if◌then◌else◌, inl, inr, none, refl, some,
  str_eq, str_eq_iff, sym, true, ◌∙◌, ◌∷◌, ◌≡◌, ◌≢◌,
}

abbrev pub Dict {ℓ} : Type ℓ → Type ℓ
Dict A = List (String × A)

-- `d.get(k)`, `k in d`, and `d[k] = v`, which leaves a key that is there in its place.
abbrev pub get {ℓ} : {A : Type ℓ} → String → Dict A → Option A
get k [] = none
get k ((j, v) ∷ d) = if str_eq j k then some v else get k d

abbrev pub has {ℓ} : {A : Type ℓ} → String → Dict A → Bool
has k d = elim (get k d) [ none ↦ false | some v ↦ true ]

abbrev pub set {ℓ} : {A : Type ℓ} → String → A → Dict A → Dict A
set k v [] = (k, v) ∷ []
set k v ((j, w) ∷ d) = let rest = set k v d in if str_eq j k then (j, v) ∷ d else (j, w) ∷ rest

-- `d.update(e)`
abbrev pub update {ℓ} : {A : Type ℓ} → Dict A → Dict A → Dict A
update d [] = d
update d ((k, v) ∷ e) = update (set k v d) e

pub str-ne : (s t : String) → s ≢ t → str_eq s t ≡ false
str-ne s t n = elim (Bool-cases (str_eq s t)) [
  | inl y ↦ absurd (n ((str_eq_iff s t).0 y))
  | inr e ↦ e
]

pub get-set {ℓ} :
    {A : Type ℓ} (j k : String) (v : A) (d : Dict A)
    → get j (set k v d) ≡ (if str_eq k j then some v else get j d)
get-set j k v [] = refl
get-set j k v ((i, w) ∷ d) = elim (Bool-cases (str_eq i k)) [
  | inl y ↦
      let same : i ≡ k = (str_eq_iff i k).0 y in
      rw (y, same) (elim (Bool-cases (str_eq k j)) [ inl p ↦ rw p refl | inr n ↦ rw n refl ])
  | inr n ↦
      rw (n, get-set j k v d)
        (elim (Bool-cases (str_eq i j)) [
          | inr m ↦ rw m refl
          | inl m ↦
              let e : i ≡ j = (str_eq_iff i j).0 m in
              let apart : str_eq k j ≡ false =
                str-ne k j
                  (λ q. let wrong : str_eq i k ≡ true = (str_eq_iff i k).1 (e ∙ sym q) in cc) in
              rw (m, apart) refl
        ])
]
