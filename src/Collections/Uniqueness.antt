-- ===== src/Collections/Uniqueness.antt =====
-- A unique key stays unique under the calls on a collection, and what holds of all documents is kept.
use sentora.Prelude.{
  All, All-keep, All-snoc, Bool, Bool-cases, List, String, [], inl, inr, keep, subst, sym, ◌++◌,
  ◌∙◌, ◌∷◌, ◌≡◌, ◌≢◌,
}
use sentora.Collections.{Distinct, update_one}

module _ {ℓ} {A : Type ℓ} where
  pub All-map {κ μ} :
      {P : A → Type κ} {Q : A → Type μ} (xs : List A) → ((x : A) → P x → Q x) → All P xs → All Q xs
  All-map [] f a = tt
  All-map (x ∷ xs) f a = (f x a.0, All-map xs f a.1)

  pub All-updated {κ} :
      (P : A → Type κ) (p : A → Bool) (f : A → A) (xs : List A)
      → ((x : A) → P x → P (f x))
      → All P xs
      → All P (update_one p f xs)
  All-updated P p f [] g a = tt
  All-updated P p f (x ∷ xs) g a = elim (Bool-cases (p x)) [
    | inl y ↦ rw y (g x a.0, a.1)
    | inr n ↦ rw n (a.0, All-updated P p f xs g a.1)
  ]

  module _ (key : A → String) where
    pub Distinct-keep : (p : A → Bool) (xs : List A) → Distinct key xs → Distinct key (keep p xs)
    Distinct-keep p [] d = tt
    Distinct-keep p (x ∷ xs) d = elim (Bool-cases (p x)) [
      | inl y ↦ rw y (All-keep (λ z. key z ≢ key x) p xs d.0, Distinct-keep p xs d.1)
      | inr n ↦ rw n (Distinct-keep p xs d.1)
    ]

    pub Distinct-append_last :
        (xs : List A) (x : A)
        → All (λ y. key y ≢ key x) xs
        → Distinct key xs
        → Distinct key (xs ++ (x ∷ []))
    Distinct-append_last [] x a d = (tt, tt)
    Distinct-append_last (y ∷ xs) x a d = (
      All-snoc (λ z. key z ≢ key y) x xs d.0 (λ e. a.0 (sym e)),
      Distinct-append_last xs x a.1 d.1,
    )

    pub Distinct-update_one :
        (p : A → Bool) (f : A → A) (xs : List A)
        → ((x : A) → key (f x) ≡ key x)
        → Distinct key xs
        → Distinct key (update_one p f xs)
    Distinct-update_one p f [] keeps d = tt
    Distinct-update_one p f (x ∷ xs) keeps d = elim (Bool-cases (p x)) [
      | inl y ↦ rw y (subst (λ k. All (λ z. key z ≢ k) xs) (sym (keeps x)) d.0, d.1)
      | inr n ↦ rw n (
        All-updated (λ z. key z ≢ key x) p f xs (λ z a e. a (sym (keeps z) ∙ e)) d.0,
        Distinct-update_one p f xs keeps d.1,
      )
    ]
