-- ===== src/Eol/Best.antt =====
-- Which product a name gets by the fuzzy comparison (fuzzy_match_product of
-- backend/domains/eol/matching.py).
use sentora.Prelude.{
  All, Bool, Bool-cases, List, Option, String, [], ap, arith, false, if◌then◌else◌, inl, inr,
  length, none, refl, some, str_eq, subst, sym, true, ℕ, ◌*◌, ◌<◌, ◌==◌, ◌∙◌, ◌∷◌, ◌≡◌, ◌≤◌, ◌⊎◌,
}
use sentora.Dicts.{Dict}
use sentora.Eol.Entities.{Ratio, Texts, ratio_le, ratio_lt}
use sentora.Eol.Names.{
  accept, best_loop, capped, fuzzy_match_product, normalize_for_fuzzy, overlap, product_score,
  ratio, token_set,
}
use mathlib.Core.List.{Memᴰ}
use native.Mathlib.Nat.{le_of_mul-le-mul_right, mul-le-mul_right}

le-trans_ratio : (a b c d e f : ℕ) → 0 < d → a * d ≤ c * b → c * f ≤ e * d → a * f ≤ e * b
le-trans_ratio a b c d e f p h k =
    le_of_mul-le-mul_right {k = d} (omega (arith, mul-le-mul_right f h, mul-le-mul_right b k)) p

-- A product's score is not above another; one without a score is below all.
abbrev pub AtMost : Ratio → Option Ratio → Type 0
AtMost s none = Unit
AtMost s (some r) = r.num * s.den ≤ s.num * r.den

abbrev Proper : Option Ratio → Type 0
Proper none = Unit
Proper (some r) = 0 < r.den

AtMost-trans :
    (s t : Ratio) (o : Option Ratio)
    → 0 < s.den
    → s.num * t.den ≤ t.num * s.den
    → AtMost s o
    → AtMost t o
AtMost-trans s t none p h a = tt
AtMost-trans s t (some r) p h a = le-trans_ratio r.num r.den s.num s.den t.num t.den p a h

module _ (score : String → String → Option Ratio)
    (proper : (k name : String) → Proper (score k name)) where
  -- The best so far is the start, or an entry's with its score.
  abbrev IsFrom : Dict String → Option String × Ratio → Option String × Ratio → Type 0
  IsFrom d start b =
      (b ≡ start)
      ⊎ ((k : String) × (name : String) × Memᴰ (k, name) d
          × (score k name ≡ some b.1)
          × (b.0 ≡ some k))

  abbrev Bounded : Dict String → Ratio → Type 0
  Bounded d s = All (λ e. AtMost s (score e.0 e.1)) d

  -- What the loop does with one entry.
  abbrev pick : Option String × Ratio → String → Option Ratio → Option String × Ratio
  pick b k o = elim o [ none ↦ b | some r ↦ if ratio_lt b.1 r then (some k, r) else b ]

  pick-AtMost :
      (b : Option String × Ratio) (k : String) (o : Option Ratio)
      → 0 < b.1.den
      → Proper o
      → AtMost (pick b k o).1 o
        × (b.1.num * (pick b k o).1.den ≤ (pick b k o).1.num * b.1.den)
        × (0 < (pick b k o).1.den)
  pick-AtMost b k none p q = (tt, omega arith, p)
  pick-AtMost b k (some r) p q = elim (Bool-cases (ratio_lt b.1 r)) [
    | inl y ↦ rw y (omega arith, ground (arith, y), q)
    | inr n ↦ rw n (ground (arith, n), omega arith, p)
  ]

  pick-from :
      (b : Option String × Ratio) (k : String) (o : Option Ratio)
      → (pick b k o ≡ b) ⊎ ((r : Ratio) × (o ≡ some r) × (pick b k o ≡ (some k, r)))
  pick-from b k none = inl refl
  pick-from b k (some r) = elim (Bool-cases (ratio_lt b.1 r)) [
    | inl y ↦ inr (r, refl, rw y refl)
    | inr n ↦ inl (rw n refl)
  ]

  best_loop-above :
      (d : Dict String) (b : Option String × Ratio)
      → 0 < b.1.den
      → (b.1.num * (best_loop score d b).1.den ≤ (best_loop score d b).1.num * b.1.den)
        × (0 < (best_loop score d b).1.den)
        × Bounded d (best_loop score d b).1
  best_loop-above [] b p = (omega arith, p, tt)
  best_loop-above ((k, name) ∷ d) b p =
      let b' = pick b k (score k name) in
      let (here, up, q) = pick-AtMost b k (score k name) p (proper k name) in
      let (up', q', rest) = best_loop-above d b' q in
      let last = (best_loop score d b').1 in
      (
        le-trans_ratio b.1.num b.1.den b'.1.num b'.1.den last.num last.den q up up',
        q',
        (AtMost-trans b'.1 last (score k name) q up' here, rest),
      )

  best_loop-From : (d : Dict String) (b : Option String × Ratio) → IsFrom d b (best_loop score d b)
  best_loop-From [] b = inl refl
  best_loop-From ((k, name) ∷ d) b =
      let b' = pick b k (score k name) in
      elim (best_loop-From d b') [
        | inr (j, n, m, s, e) ↦ inr (j, n, Memᴰ.tail m, s, e)
        | inl same ↦ elim (pick-from b k (score k name)) [
          | inl kept ↦ inl (same ∙ kept)
          | inr (r, s, e) ↦
              let whole = same ∙ e in inr (k, name, Memᴰ.head refl, s ∙ cc (whole), cc (whole))
        ]
      ]

-- At most seven tenths, of a positive whole.
abbrev Modest : Option Ratio → Type 0
Modest none = Unit
Modest (some r) = (r.num * 100 ≤ 70 * r.den) × (0 < r.den)

capped-Modest : (a b : ℕ) → (b == 0) ≡ false → Modest (some (capped (ratio a b)))
capped-Modest a b h = elim (Bool-cases (ratio_lt (ratio 65 100) (ratio a b))) [
  | inl y ↦ rw y (omega arith, omega arith)
  | inr n ↦ rw n (ground (arith, n), ground (arith, h))
]

-- The chain of tests of the loop's body.
score_tests :
    (short hit inside empty apart : Bool) (r : Ratio)
    → (empty ≡ false → Modest (some r))
    → Modest (
        if short
        then (if hit then some (ratio 65 100) else none)
        else if inside
        then some (ratio 70 100)
        else if empty
        then none
        else if apart
        then none
        else some r)
score_tests true true inside empty apart r h = (omega arith, omega arith)
score_tests true false inside empty apart r h = tt
score_tests false hit true empty apart r h = (omega arith, omega arith)
score_tests false hit false true apart r h = tt
score_tests false hit false false true r h = tt
score_tests false hit false false false r h = h refl

product_score-Modest :
    (py : Texts) (app : String) (tokens : List String) (k name : String)
    → Modest (product_score py app tokens k name)
product_score-Modest py app tokens k name =
    let product_tokens = token_set (py.split (normalize_for_fuzzy py name)) in
    score_tests _ _ _ (length product_tokens == 0) _ _
      (capped-Modest (overlap tokens product_tokens) (length product_tokens))

Modest-Proper : (o : Option Ratio) → Modest o → Proper o
Modest-Proper none h = tt
Modest-Proper (some r) h = h.1

-- The score that a product's slug and name get against the name of an application.
abbrev pub score_for : Texts → String → String → String → Option Ratio
score_for py app_name =
    let normalized_app = normalize_for_fuzzy py app_name in
    product_score py normalized_app (token_set (py.split normalized_app))

accepted :
    (b : Option String × Ratio) {k : String} {s : Ratio}
    → accept b ≡ some (k, s)
    → (b.0 ≡ some k) × (b.1 ≡ s) × (40 * s.den ≤ s.num * 100)
accepted (none, r) e = cc e
accepted (some pid, r) {k} {s} e = elim (Bool-cases (str_eq pid "")) [
  | inl y ↦ let wrong : none ≡ some (k, s) = rw (accept, y) at e in cc wrong
  | inr n ↦ elim (Bool-cases (ratio_le (ratio 40 100) r)) [
    | inr m ↦ let wrong : none ≡ some (k, s) = rw (accept, n, m) at e in cc wrong
    | inl y ↦
        let here : some (pid, r) ≡ some (k, s) = rw (accept, n, y) at e in
        let same : r ≡ s = cc here in
        let low : 40 * r.den ≤ r.num * 100 = ground (arith, y) in
        (cc here, same, subst (λ q. 40 * q.den ≤ q.num * 100) same low)
  ]
]

-- A product that the fuzzy comparison gives is one of the products; the confidence is its score, from
-- four to seven tenths, and so below the confidence of the other layers; and no product scores higher.
pub fuzzy_match_product-IsBest :
    (py : Texts) (app_name : String) (products : Dict String) {k : String} {s : Ratio}
    → fuzzy_match_product py app_name products ≡ some (k, s)
    → ((name : String) × Memᴰ (k, name) products × (score_for py app_name k name ≡ some s))
      × (40 * s.den ≤ s.num * 100)
      × (s.num * 100 ≤ 70 * s.den)
      × All (λ e. AtMost s (score_for py app_name e.0 e.1)) products
unfolding fuzzy_match_product
fuzzy_match_product-IsBest py app_name products {k} {s} e =
    let app = normalize_for_fuzzy py app_name in
    let tokens = token_set (py.split app) in
    let score = product_score py app tokens in
    let start : Option String × Ratio = (none, ratio 0 1) in
    let modest = product_score-Modest py app tokens in
    let proper = λ (j n : String). Modest-Proper (score j n) (modest j n) in
    elim (Bool-cases (str_eq app "")) [
      | inl y ↦ let wrong : none ≡ some (k, s) = rw (fuzzy_match_product, y) at e in cc wrong
      | inr n ↦ elim (Bool-cases (length tokens == 0)) [
        | inl y ↦ let wrong : none ≡ some (k, s) = rw (fuzzy_match_product, n, y) at e in cc wrong
        | inr m ↦
            let found : accept (best_loop score products start) ≡ some (k, s) =
              rw (fuzzy_match_product, n, m) at e in
            let (name_eq, score_eq, low) = accepted (best_loop score products start) found in
            let (up, pos, all) = best_loop-above score proper products start (omega arith) in
            elim (best_loop-From score proper products start) [
              | inl same ↦
                  let wrong : none ≡ some k =
                    ap (λ (b : Option String × Ratio). b.0) (sym same) ∙ name_eq in
                  cc wrong
              | inr (j, name, mem, scored, chosen) ↦
                  let same : j ≡ k = ground (arith, chosen, name_eq) in
                  let mine : score k name ≡ some s =
                    subst (λ i. score i name ≡ some s) same (scored ∙ ap some score_eq) in
                  (
                    (name, subst (λ i. Memᴰ (i, name) products) same mem, mine),
                    low,
                    (subst Modest mine (modest k name)).0,
                    subst (λ q. All (λ e. AtMost q (score e.0 e.1)) products) score_eq all,
                  )
            ]
      ]
    ]
