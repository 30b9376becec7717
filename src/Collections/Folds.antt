-- ===== src/Collections/Folds.antt =====
-- A loop that updates the document of each element of a list by its key, one after the other, and what
-- it makes of the whole collection.
use sentora.Prelude.{
  All, All-keep, Bool, Bool-cases, List, String, [], ap, arith, false, if◌then◌else◌, inl, inr,
  keep, map, none, refl, some, str_eq, str_eq_iff, subst, sym, true, ◌∙◌, ◌∷◌, ◌≡◌, ◌≢◌,
}
use sentora.Collections.{Distinct, find_one, update_one}
use sentora.Collections.Keyed.{find_one-others}
use sentora.Collections.Uniqueness.{All-map, Distinct-update_one}
use sentora.Dicts.{str-ne}
use text.Mathlib.TextPositions.{eq_refl}

module _ {ℓ} {A : Type ℓ} where
  pub find_one-update_self :
      (p : A → Bool) (f : A → A) (xs : List A) {k : A}
      → find_one p xs ≡ some k
      → p (f k) ≡ true
      → find_one p (update_one p f xs) ≡ some (f k)
  find_one-update_self p f [] e h = cc e
  find_one-update_self p f (x ∷ xs) {k} e h = elim (Bool-cases (p x)) [
    | inl y ↦
        let here : some x ≡ some k = rw y at e in
        let same : x ≡ k = ground (arith, here) in rw (y, same, h) refl
    | inr n ↦
        let there : find_one p xs ≡ some k = rw n at e in
        rw (n, n, find_one-update_self p f xs there h) refl
  ]

  -- An update of a document leaves what another test finds.
  pub find_one-update_other :
      (q p : A → Bool) (f : A → A) (xs : List A)
      → ((x : A) → p x ≡ true → (q x ≡ false) × (q (f x) ≡ false))
      → find_one q (update_one p f xs) ≡ find_one q xs
  find_one-update_other q p f [] apart = refl
  find_one-update_other q p f (x ∷ xs) apart = elim (Bool-cases (p x)) [
    | inl y ↦ let (a, b) = apart x y in rw (y, a, b) refl
    | inr n ↦ rw (n, find_one-update_other q p f xs apart) refl
  ]

  -- Two updates of one document are one.
  pub update_one-update_one :
      (p : A → Bool) (f g : A → A) (xs : List A)
      → ((x : A) → p (f x) ≡ p x)
      → update_one p g (update_one p f xs) ≡ update_one p (λ x. g (f x)) xs
  update_one-update_one p f g [] keeps = refl
  update_one-update_one p f g (x ∷ xs) keeps = elim (Bool-cases (p x)) [
    | inl y ↦ rw (y, keeps x, y) refl
    | inr n ↦ rw (n, n, update_one-update_one p f g xs keeps) refl
  ]

  -- An update is what it makes of the document that it finds.
  pub update_one-cong :
      (p : A → Bool) (f g : A → A) (xs : List A) {k : A}
      → find_one p xs ≡ some k
      → f k ≡ g k
      → update_one p f xs ≡ update_one p g xs
  update_one-cong p f g [] e h = refl
  update_one-cong p f g (x ∷ xs) {k} e h = elim (Bool-cases (p x)) [
    | inl y ↦
        let here : some x ≡ some k = rw y at e in
        let same : x ≡ k = ground (arith, here) in rw (y, same, h) refl
    | inr n ↦
        let there : find_one p xs ≡ some k = rw n at e in
        rw (n, update_one-cong p f g xs there h) refl
  ]

  pub map-map_eq :
      (f g h : A → A) (xs : List A) → ((s : A) → g (f s) ≡ h s) → map g (map f xs) ≡ map h xs
  map-map_eq f g h [] e = refl
  map-map_eq f g h (x ∷ xs) e = rw (e x, map-map_eq f g h xs e) refl

  module _ (key : A → String) where
    abbrev pub keyed : String → A → Bool
    keyed k x = str_eq (key x) k

    pub update_one-map :
        (k : String) (f : A → A) (xs : List A)
        → Distinct key xs
        → update_one (keyed k) f xs ≡ map (λ x. if keyed k x then f x else x) xs
    update_one-map k f [] d = refl
    update_one-map k f (x ∷ xs) d = elim (Bool-cases (keyed k x)) [
      | inr n ↦ rw (n, update_one-map k f xs d.1) refl
      | inl y ↦
          let apart = subst (λ z. All (λ s. key s ≢ z) xs) ((str_eq_iff (key x) k).0 y) d.0 in
          rw (y, untouched xs apart) refl
    ]
      where
        untouched :
            (ys : List A)
            → All (λ s. key s ≢ k) ys
            → map (λ x. if keyed k x then f x else x) ys ≡ ys
        untouched [] h = refl
        untouched (y ∷ ys) h = rw (str-ne (key y) k h.0, untouched ys h.1) refl

    module _ (f : A → A → A) (keeps : (d x : A) → key (f d x) ≡ key x) where
      -- `for d in docs: update_one({key: d.key}, f(d))`
      abbrev pub each : List A → List A → List A
      each [] xs = xs
      each (d ∷ docs) xs = each docs (update_one (keyed (key d)) (f d) xs)

      abbrev apply : List A → A → A
      apply docs s = elim (find_one (keyed (key s)) docs) [ none ↦ s | some d ↦ f d s ]

      apply-cons :
          (d : A) (docs : List A) (s : A)
          → All (λ e. key e ≢ key d) docs
          → apply docs (if keyed (key d) s then f d s else s) ≡ apply (d ∷ docs) s
      apply-cons d docs s apart = elim (Bool-cases (keyed (key d) s)) [
        | inl y ↦
            let same : key s ≡ key d = (str_eq_iff (key s) (key d)).0 y in
            let first : str_eq (key d) (key s) ≡ true = (str_eq_iff (key d) (key s)).1 (sym same) in
            let others : All (λ e. key e ≢ key s) docs =
              subst (λ z. All (λ e. key e ≢ z) docs) (sym same) apart in
            let gone : find_one (keyed (key (f d s))) docs ≡ none =
              subst (λ z. find_one (keyed z) docs ≡ none) (sym (keeps d s))
                (find_one-others key (key s) (keyed (key s)) docs
                  (λ e t. (str_eq_iff (key e) (key s)).0 t) others) in
            let chosen : (if keyed (key d) s then f d s else s) ≡ f d s = rw y refl in
            let kept : apply docs (f d s) ≡ f d s = rw (apply, gone) refl in
            let taken : apply (d ∷ docs) s ≡ f d s = rw (apply, first) refl in
            ap (apply docs) chosen ∙ (kept ∙ sym taken)
        | inr n ↦
            let other : str_eq (key d) (key s) ≡ false = str-ne (key d) (key s) (λ e.
              let wrong : keyed (key d) s ≡ true = (str_eq_iff (key s) (key d)).1 (sym e) in
              cc (wrong, n)) in
            let chosen : (if keyed (key d) s then f d s else s) ≡ s = rw n refl in
            let skipped : apply (d ∷ docs) s ≡ apply docs s = rw (apply, other) refl in
            ap (apply docs) chosen ∙ sym skipped
      ]

      apply-nil : (xs : List A) → xs ≡ map (apply []) xs
      apply-nil [] = refl
      apply-nil (x ∷ xs) = ap (λ ys. x ∷ ys) (apply-nil xs)

      each-apply :
          (docs xs : List A)
          → Distinct key docs
          → Distinct key xs
          → each docs xs ≡ map (apply docs) xs
      each-apply [] xs dd dx = apply-nil xs
      each-apply (d ∷ docs) xs dd dx =
          let p = keyed (key d) in
          each-apply docs (update_one p (f d) xs) dd.1
            (Distinct-update_one key p (f d) xs (keeps d) dx)
          ∙ (ap (map (apply docs)) (update_one-map (key d) (f d) xs dx)
              ∙ map-map_eq (λ s. if p s then f d s else s) (apply docs) (apply (d ∷ docs)) xs
                  (λ s. apply-cons d docs s dd.0))

      -- Where an element finds itself among the documents of a query if the query selects it.
      abbrev FindsItself : (A → Bool) → List A → A → Type ℓ
      FindsItself q xs s = find_one (keyed (key s)) (keep q xs) ≡ (if q s then some s else none)

      apply-keep :
          (q : A → Bool) (xs ys : List A)
          → All (FindsItself q xs) ys
          → map (apply (keep q xs)) ys ≡ map (λ s. if q s then f s s else s) ys
      apply-keep q xs [] h = refl
      apply-keep q xs (y ∷ ys) h =
          let rest = apply-keep q xs ys h.1 in
          elim (Bool-cases (q y)) [
            | inl t ↦
                let here : find_one (keyed (key y)) (keep q xs) ≡ some y = rw t at h.0 in
                rw (map, apply, here, t, rest) refl
            | inr n ↦
                let here : find_one (keyed (key y)) (keep q xs) ≡ none = rw n at h.0 in
                rw (map, apply, here, n, rest) refl
          ]

      pub finds_itself : (q : A → Bool) (xs : List A) → Distinct key xs → All (FindsItself q xs) xs
      finds_itself q [] d = tt
      finds_itself q (x ∷ xs) d = elim (Bool-cases (q x)) [
        | inl y ↦ rw y (
          rw (eq_refl (key x)) refl,
          All-map xs (λ s h. rw (y, str-ne (key x) (key s) (λ e. h.0 (sym e))) h.1)
              (both xs d.0 (finds_itself q xs d.1)),
        )
        | inr n ↦ rw n (
          find_one-others key (key x) (keyed (key x)) (keep q xs)
              (λ e t. (str_eq_iff (key e) (key x)).0 t) (All-keep (λ e. key e ≢ key x) q xs d.0),
          All-map xs (λ s h. rw n h) (finds_itself q xs d.1),
        )
      ]
        where
          both :
              (ys : List A)
              → All (λ e. key e ≢ key x) ys
              → All (FindsItself q xs) ys
              → All (λ s. (key s ≢ key x) × FindsItself q xs s) ys
          both [] a b = tt
          both (y ∷ ys) a b = ((a.0, b.0), both ys a.1 b.1)

      -- The loop over the documents that a query selects updates these, each from itself.
      pub each-keep :
          (q : A → Bool) (xs : List A)
          → Distinct key (keep q xs)
          → Distinct key xs
          → each (keep q xs) xs ≡ map (λ s. if q s then f s s else s) xs
      each-keep q xs dk dx =
          each-apply (keep q xs) xs dk dx ∙ apply-keep q xs xs (finds_itself q xs dx)
