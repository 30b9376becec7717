-- ===== src/Collections.antt =====
-- A collection of the database as the list of its documents, and the calls on it that the
-- repositories make.
pub mod Keyed
pub mod Uniqueness
pub mod Folds
use sentora.Prelude.{
  All, Bool, List, Option, String, [], false, if◌then◌else◌, keep, none, not, refl, some, ◌++◌, ◌∷◌,
  ◌≡◌, ◌≢◌,
}

module _ {ℓ} {A : Type ℓ} where
  abbrev pub find_one : (A → Bool) → List A → Option A
  find_one p [] = none
  find_one p (x ∷ xs) = if p x then some x else find_one p xs

  abbrev pub update_one : (A → Bool) → (A → A) → List A → List A
  update_one p f [] = []
  update_one p f (x ∷ xs) = let rest = update_one p f xs in if p x then f x ∷ xs else x ∷ rest

  abbrev pub delete_one : (A → Bool) → List A → List A
  delete_one p [] = []
  delete_one p (x ∷ xs) = let rest = delete_one p xs in if p x then xs else x ∷ rest

  abbrev pub update_many : (A → Bool) → (A → A) → List A → List A
  update_many p f [] = []
  update_many p f (x ∷ xs) = (if p x then f x else x) ∷ update_many p f xs

  abbrev pub delete_many : (A → Bool) → List A → List A
  delete_many p xs = keep (λ x. not (p x)) xs

  pub find_one-append_last :
      (p : A → Bool) (xs : List A) (x : A)
      → All (λ y. p y ≡ false) xs
      → find_one p (xs ++ (x ∷ [])) ≡ (if p x then some x else none)
  find_one-append_last p [] x h = refl
  find_one-append_last p (y ∷ xs) x h = rw h.0 (find_one-append_last p xs x h.1)

-- No two documents have the same key, as a unique index on it keeps it.
abbrev pub Distinct {ℓ} : {A : Type ℓ} → (A → String) → List A → Type 0
Distinct key [] = Unit
Distinct key (x ∷ xs) = All (λ y. key y ≢ key x) xs × Distinct key xs
