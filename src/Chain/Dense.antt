-- ===== src/Chain/Dense.antt =====
-- Linked chains cut into pieces and looked up by sequence, as the repository's queries do.
use sentora.Prelude.{
  last?, ℕ, zero, suc, ◌+◌, ◌≤◌, ◌<◌, String, ◌≡◌, refl, Option, none, some, List, [], ◌∷◌, ◌++◌,
  arith, ◌==◌, Bool-cases, inl, inr, length, take, keep,
}
use sentora.Chain.Entities.{ChainedAuditEntry}
use sentora.Chain.Runtime.{Runtime, Ascending}
use sentora.Chain.Hasher.{compute_entry_hash, build_hashable}
use sentora.Chain.Repository.{find_sequence, in_range, set_epoch_end, hash_of}
use sentora.Chain.Linked.{Linked}

-- The hash that an entry behind `es` must point at.
abbrev pub last_hash : Option String → List ChainedAuditEntry → Option String
last_hash p [] = p
last_hash p (e ∷ es) = last_hash (some e.hash) es

module _ (rt : Runtime) where
  pub Linked-append :
      (n m : ℕ) (p : Option String) (xs ys : List ChainedAuditEntry)
      → m ≡ n + length xs
      → Linked rt n p xs
      → Linked rt m (last_hash p xs) ys
      → Linked rt n p (xs ++ ys)
  Linked-append n m p [] ys h l r = let same : m ≡ n = omega arith in rw same at r
  Linked-append n m p (x ∷ xs) ys h l r =
      (l.0, l.1, l.2, Linked-append (n + 1) m (some x.hash) xs ys (omega arith) l.3 r)

  pub Linked-append_inv :
      (n m : ℕ) (p : Option String) (xs ys : List ChainedAuditEntry)
      → m ≡ n + length xs
      → Linked rt n p (xs ++ ys)
      → Linked rt n p xs × Linked rt m (last_hash p xs) ys
  Linked-append_inv n m p [] ys h l = let same : m ≡ n = omega arith in (tt, rw same l)
  Linked-append_inv n m p (x ∷ xs) ys h l =
      let (a, b) = Linked-append_inv (n + 1) m (some x.hash) xs ys (omega arith) l.3 in
      ((l.0, l.1, l.2, a), b)

  pub Linked-Ascending :
      (n : ℕ) (p : Option String) (es : List ChainedAuditEntry) → Linked rt n p es → Ascending es
  Linked-Ascending n p [] l = tt
  Linked-Ascending n p (e ∷ []) l = tt
  Linked-Ascending n p (e ∷ f ∷ es) l =
      (omega arith, Linked-Ascending (n + 1) (some e.hash) (f ∷ es) l.3)

  pub last-Linked :
      (n : ℕ) (p : Option String) (e : ChainedAuditEntry) (es : List ChainedAuditEntry)
      → Linked rt n p (e ∷ es)
      → (f : ChainedAuditEntry) × (last? (e ∷ es) ≡ some f) × (f.sequence + 1 ≡ n + length (e ∷ es))
  last-Linked n p e [] l = (e, refl, omega arith)
  last-Linked n p e (f ∷ es) l =
      let (g, eq, c) = last-Linked (n + 1) (some e.hash) f es l.3 in (g, eq, omega arith)

  -- A range of sequences cuts out the entries at those positions.
  pub keep-in_range-below :
      (n a b : ℕ) (p : Option String) (es : List ChainedAuditEntry)
      → n + length es ≤ a
      → Linked rt n p es
      → keep (in_range a b) es ≡ []
  unfolding in_range
  keep-in_range-below n a b p [] h l = refl
  keep-in_range-below n a b p (e ∷ es) h l =
      ground (arith, keep-in_range-below (n + 1) a b (some e.hash) es (omega arith) l.3)

  pub keep-in_range-above :
      (n a b : ℕ) (p : Option String) (es : List ChainedAuditEntry)
      → b < n
      → Linked rt n p es
      → keep (in_range a b) es ≡ []
  unfolding in_range
  keep-in_range-above n a b p [] h l = refl
  keep-in_range-above n a b p (e ∷ es) h l =
      ground (arith, keep-in_range-above (n + 1) a b (some e.hash) es (omega arith) l.3)

  pub keep-in_range-take :
      (n a b k : ℕ) (p : Option String) (es : List ChainedAuditEntry)
      → a ≤ n
      → n + k ≡ suc b
      → Linked rt n p es
      → keep (in_range a b) es ≡ take k es
  unfolding in_range
  keep-in_range-take n a b zero p [] h k l = refl
  keep-in_range-take n a b (suc k) p [] h c l = refl
  keep-in_range-take n a b zero p (e ∷ es) h k l =
      keep-in_range-above n a b p (e ∷ es) (omega arith) l
  keep-in_range-take n a b (suc k) p (e ∷ es) h c l =
      ground
        (arith, keep-in_range-take (n + 1) a b k (some e.hash) es (omega arith) (omega arith) l.3)

  pub find_sequence-Linked :
      (n k : ℕ) (p : Option String) (es : List ChainedAuditEntry)
      → n + length es ≡ suc k
      → n ≤ k
      → Linked rt n p es
      → hash_of (find_sequence k es) ≡ last_hash p es
  unfolding find_sequence hash_of
  find_sequence-Linked n k p [] h c l = absurd (omega arith)
  find_sequence-Linked n k p (e ∷ []) h c l = ground arith
  find_sequence-Linked n k p (e ∷ f ∷ es) h c l =
      ground (
        arith,
        find_sequence-Linked (n + 1) k (some e.hash) (f ∷ es) (omega arith) (omega arith) l.3,
      )

  pub find_sequence-above :
      (n k : ℕ) (p : Option String) (es : List ChainedAuditEntry)
      → n + length es ≤ k
      → Linked rt n p es
      → find_sequence k es ≡ none
  unfolding find_sequence
  find_sequence-above n k p [] h l = refl
  find_sequence-above n k p (e ∷ es) h l =
      ground (arith, find_sequence-above (n + 1) k (some e.hash) es (omega arith) l.3)

  -- Marking an entry changes nothing that is hashed.
  pub Linked-set_epoch_end :
      (k n : ℕ) (p : Option String) (es : List ChainedAuditEntry)
      → Linked rt n p es
      → Linked rt n p (set_epoch_end k es)
  unfolding set_epoch_end compute_entry_hash build_hashable
  Linked-set_epoch_end k n p [] l = tt
  Linked-set_epoch_end k n p (e ∷ es) l = elim (Bool-cases (e.sequence == k)) [
    | inl here ↦ rw here (l.0, l.1, l.2, l.3)
    | inr later ↦ rw later (l.0, l.1, l.2, Linked-set_epoch_end k (n + 1) (some e.hash) es l.3)
  ]

pub length-set_epoch_end :
    (k : ℕ) (es : List ChainedAuditEntry) → length (set_epoch_end k es) ≡ length es
unfolding set_epoch_end
length-set_epoch_end k [] = refl
length-set_epoch_end k (e ∷ es) = ground (arith, length-set_epoch_end k es)

pub last_hash-set_epoch_end :
    (k : ℕ) (p : Option String) (es : List ChainedAuditEntry)
    → last_hash p (set_epoch_end k es) ≡ last_hash p es
unfolding set_epoch_end
last_hash-set_epoch_end k p [] = refl
last_hash-set_epoch_end k p (e ∷ es) = ground (arith, last_hash-set_epoch_end k (some e.hash) es)

pub last_hash-append :
    (p : Option String) (xs ys : List ChainedAuditEntry)
    → last_hash p (xs ++ ys) ≡ last_hash (last_hash p xs) ys
last_hash-append p [] ys = refl
last_hash-append p (x ∷ xs) ys = last_hash-append (some x.hash) xs ys
