-- ===== src/Collections/Keyed.antt =====
-- What a unique key of a collection gives: finding a document by it, before and after an update.
use sentora.Prelude.{
  All, Bool, Bool-cases, List, String, [], arith, false, if◌then◌else◌, inl, inr, keep, none, refl,
  some, subst, sym, true, ◌++◌, ◌∙◌, ◌∷◌, ◌≡◌, ◌≢◌,
}
use sentora.Collections.{Distinct, find_one, update_one}

module _ {ℓ} {A : Type ℓ} where
  pub find_one-All {κ} :
      (P : A → Type κ) (p : A → Bool) (xs : List A) (k : A)
      → find_one p xs ≡ some k
      → All P xs
      → P k
  find_one-All P p [] k e h = cc e
  find_one-All P p (x ∷ xs) k e h = elim (Bool-cases (p x)) [
    | inl y ↦ let here : some x ≡ some k = rw y at e in subst P (ground (arith, here)) h.0
    | inr n ↦ let there : find_one p xs ≡ some k = rw n at e in find_one-All P p xs k there h.1
  ]

  pub find_one-test : (p : A → Bool) (xs : List A) (k : A) → find_one p xs ≡ some k → p k ≡ true
  find_one-test p [] k e = cc e
  find_one-test p (x ∷ xs) k e = elim (Bool-cases (p x)) [
    | inl y ↦
        let here : some x ≡ some k = rw y at e in subst (λ z. p z ≡ true) (ground (arith, here)) y
    | inr n ↦ let there : find_one p xs ≡ some k = rw n at e in find_one-test p xs k there
  ]

  pub find_one-none :
      (q : A → Bool) (xs : List A) → All (λ y. q y ≡ false) xs → find_one q xs ≡ none
  find_one-none q [] h = refl
  find_one-none q (x ∷ xs) h = rw h.0 (find_one-none q xs h.1)

  pub find_one-append :
      (q : A → Bool) (xs : List A) (x : A)
      → find_one q (xs ++ (x ∷ []))
        ≡ (elim (find_one q xs) [ none ↦ (if q x then some x else none) | some y ↦ some y ])
  find_one-append q [] x = ground arith
  find_one-append q (y ∷ xs) x = ground (arith, find_one-append q xs x)

  -- An update of a document outside a selection leaves the selection as it is.
  pub keep-update_one :
      (q p : A → Bool) (f : A → A) (xs : List A) (k : A)
      → find_one p xs ≡ some k
      → q k ≡ false
      → q (f k) ≡ false
      → keep q (update_one p f xs) ≡ keep q xs
  keep-update_one q p f [] k e a b = refl
  keep-update_one q p f (x ∷ xs) k e a b = elim (Bool-cases (p x)) [
    | inl y ↦
        let here : some x ≡ some k = rw y at e in
        let same : x ≡ k = ground (arith, here) in rw (y, same, a, b) refl
    | inr n ↦
        let there : find_one p xs ≡ some k = rw n at e in
        rw (n, keep-update_one q p f xs k there a b) refl
  ]

  module _ (key : A → String) where
    pub All-update_one :
        (h : String) (p : A → Bool) (f : A → A) (xs : List A)
        → ((x : A) → key (f x) ≡ key x)
        → All (λ y. key y ≢ h) xs
        → All (λ y. key y ≢ h) (update_one p f xs)
    All-update_one h p f [] keeps a = tt
    All-update_one h p f (x ∷ xs) keeps a = elim (Bool-cases (p x)) [
      | inl y ↦ rw y ((λ e. a.0 (sym (keeps x) ∙ e)), a.1)
      | inr n ↦ rw n (a.0, All-update_one h p f xs keeps a.1)
    ]

    -- A test that only documents with this key pass.
    abbrev pub Selects : String → (A → Bool) → Type ℓ
    Selects h q = (y : A) → q y ≡ true → key y ≡ h

    Selects-false : (h : String) (q : A → Bool) → Selects h q → (x : A) → key x ≢ h → q x ≡ false
    Selects-false h q s x n = elim (Bool-cases (q x)) [ inl y ↦ absurd (n (s x y)) | inr e ↦ e ]

    pub find_one-others :
        (h : String) (q : A → Bool) (xs : List A)
        → Selects h q
        → All (λ y. key y ≢ h) xs
        → find_one q xs ≡ none
    find_one-others h q [] s a = refl
    find_one-others h q (x ∷ xs) s a = rw (Selects-false h q s x a.0) (find_one-others h q xs s a.1)

    -- A narrower test finds the document with a key, if it passes it, and no other.
    pub find_one-narrow :
        (h : String) (p q : A → Bool) (xs : List A) (k : A)
        → Distinct key xs
        → find_one p xs ≡ some k
        → key k ≡ h
        → Selects h p
        → Selects h q
        → find_one q xs ≡ (if q k then some k else none)
    find_one-narrow h p q [] k d e kh sp sq = cc e
    find_one-narrow h p q (x ∷ xs) k d e kh sp sq = elim (Bool-cases (p x)) [
      | inl y ↦
          let here : some x ≡ some k = rw y at e in
          let same : x ≡ k = ground (arith, here) in
          let others = subst (λ z. All (λ y. key y ≢ z) xs) (sp x y) d.0 in
          rw (find_one-others h q xs sq others, same) refl
      | inr n ↦
          let there : find_one p xs ≡ some k = rw n at e in
          let apart : key k ≢ key x = find_one-All (λ y. key y ≢ key x) p xs k there d.0 in
          rw (Selects-false h q sq x (λ e. apart (kh ∙ sym e)))
            (find_one-narrow h p q xs k d.1 there kh sp sq)
    ]

    -- After an update that keeps the key, a test finds the updated document, if it passes it.
    pub find_one-update_one :
        (p q : A → Bool) (f : A → A) (xs : List A) (k : A)
        → Distinct key xs
        → ((x : A) → key (f x) ≡ key x)
        → find_one p xs ≡ some k
        → Selects (key k) q
        → find_one q (update_one p f xs) ≡ (if q (f k) then some (f k) else none)
    find_one-update_one p q f [] k d keeps e s = cc e
    find_one-update_one p q f (x ∷ xs) k d keeps e s = elim (Bool-cases (p x)) [
      | inl y ↦
          let here : some x ≡ some k = rw y at e in
          let same : x ≡ k = ground (arith, here) in
          let others = subst (λ z. All (λ y. key y ≢ key z) xs) same d.0 in
          rw (y, find_one-others (key k) q xs s others, same) refl
      | inr n ↦
          let there : find_one p xs ≡ some k = rw n at e in
          let apart : key k ≢ key x = find_one-All (λ y. key y ≢ key x) p xs k there d.0 in
          rw (n, Selects-false (key k) q s x (λ e. apart (sym e)))
            (find_one-update_one p q f xs k d.1 keeps there s)
    ]
