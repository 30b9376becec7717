-- ===== src/Chain/Linked.antt =====
-- What the verification of a batch (`_verify_batch` of backend/audit/chain/queries.py) decides.
use sentora.Prelude.{
  ℕ, suc, ◌+◌, ◌<◌, String, ◌≡◌, ◌↔◌, true, false, Option, none, some, List, [], ◌∷◌, arith, refl,
  ◌==◌, ==_iff, str_eq, opt_eq, Bool-cases, inl, inr, str_eq_iff, opt_eq_iff, length, take,
}
use sentora.Chain.Entities.{ChainedAuditEntry}
use sentora.Chain.Runtime.{Runtime}
use sentora.Chain.Hasher.{compute_entry_hash}
use sentora.Chain.Verify.{BatchFailure, verify_from, verify_batch}

module _ (rt : Runtime) where
  -- The stored hash is the hash of the content.
  abbrev pub IsSealed : ChainedAuditEntry → Type 0
  IsSealed e = compute_entry_hash rt e e.previous_hash ≡ e.hash

  -- Sequences count up from `n`, the first entry points at `p`, each other one at the hash before it.
  abbrev pub Linked : ℕ → Option String → List ChainedAuditEntry → Type 0
  Linked n p [] = Unit
  Linked n p (e ∷ es) =
      (e.sequence ≡ n) × (e.previous_hash ≡ p) × IsSealed e × Linked (n + 1) (some e.hash) es

  verify_from_sound :
      (s i n : ℕ) (p : Option String) (es : List ChainedAuditEntry)
      → n ≡ s + i
      → verify_from rt s i p false es ≡ none
      → Linked n p es
  unfolding verify_from
  verify_from_sound s i n p [] h v = tt
  verify_from_sound s i n p (e ∷ es) h v = ground (
    arith,
    opt_eq_iff e.previous_hash p,
    str_eq_iff (compute_entry_hash rt e e.previous_hash) e.hash,
    verify_from_sound s (i + 1) (n + 1) (some e.hash) es,
  )

  verify_from_complete :
      (s i n : ℕ) (p : Option String) (es : List ChainedAuditEntry)
      → n ≡ s + i
      → Linked n p es
      → verify_from rt s i p false es ≡ none
  unfolding verify_from
  verify_from_complete s i n p [] h v = ground arith
  verify_from_complete s i n p (e ∷ es) h v = ground (
    arith,
    opt_eq_iff e.previous_hash p,
    str_eq_iff (compute_entry_hash rt e e.previous_hash) e.hash,
    verify_from_complete s (i + 1) (n + 1) (some e.hash) es,
  )

  -- A batch passes exactly when its sequences count up from the expected one and every entry is
  -- sealed and points at the entry before it, the first at the expected hash.
  pub verify_batch-iff-Linked :
      (es : List ChainedAuditEntry) (n : ℕ) (p : Option String)
      → (verify_batch rt es n p false ≡ none) ↔ Linked n p es
  unfolding verify_batch
  verify_batch-iff-Linked es n p =
      (verify_from_sound n 0 n p es (omega arith), verify_from_complete n 0 n p es (omega arith))

  -- After the first entry the flag that skips the check of its link makes no difference.
  verify_from-skip :
      (s i : ℕ) (p : Option String) (es : List ChainedAuditEntry)
      → 0 < i
      → verify_from rt s i p true es ≡ verify_from rt s i p false es
  unfolding verify_from
  verify_from-skip s i p [] h = refl
  verify_from-skip s i p (e ∷ es) h = ground (arith, verify_from-skip s (i + 1) (some e.hash) es)

  -- With the check of the first link skipped, the batch passes exactly when it is linked to whatever
  -- its first entry points at.
  pub verify_batch_skipping-iff-Linked :
      (e : ChainedAuditEntry) (es : List ChainedAuditEntry) (n : ℕ) (p : Option String)
      → (verify_batch rt (e ∷ es) n p true ≡ none) ↔ Linked n e.previous_hash (e ∷ es)
  verify_batch_skipping-iff-Linked e es n p =
      rw same (verify_batch-iff-Linked (e ∷ es) n e.previous_hash)
    where
      same : verify_batch rt (e ∷ es) n p true ≡ verify_batch rt (e ∷ es) n e.previous_hash false
      same =
          unfold verify_batch verify_from in
          ground (
            arith,
            opt_eq_iff e.previous_hash e.previous_hash,
            verify_from-skip n 1 (some e.hash) es,
          )

  -- What a reported failure at `checked` says of the batch.
  abbrev pub BreaksAt : ℕ → Option String → List ChainedAuditEntry → ℕ → Type 0
  BreaksAt n p es checked =
      (checked < length es) × Linked n p (take checked es) × ¬ Linked n p (take (suc checked) es)

  verify_from-fails :
      (s i n : ℕ) (p : Option String) (es : List ChainedAuditEntry) (f : BatchFailure)
      → n ≡ s + i
      → verify_from rt s i p false es ≡ some f
      → (k : ℕ) × (f.entries_checked ≡ i + k) × (f.broken_sequence ≡ n + k) × BreaksAt n p es k
  unfolding verify_from
  verify_from-fails s i n p [] f h v = cc
  verify_from-fails s i n p (e ∷ es) f h v = elim (Bool-cases (e.sequence == s + i)) [
    | inr gap ↦ (
      0,
      ground arith,
      ground arith,
      (omega arith, tt, λ l. ground (arith, ==_iff e.sequence (s + i))),
    )
    | inl right ↦ elim (Bool-cases (opt_eq e.previous_hash p)) [
      | inr other ↦ (
        0,
        ground arith,
        ground arith,
        (omega arith, tt, λ l. ground (arith, opt_eq_iff e.previous_hash p)),
      )
      | inl link ↦ elim (Bool-cases (str_eq (compute_entry_hash rt e e.previous_hash) e.hash)) [
        | inr unsealed ↦ (
          0,
          ground arith,
          ground arith,
          (
            omega arith,
            tt,
            λ l. ground (arith, str_eq_iff (compute_entry_hash rt e e.previous_hash) e.hash),
          ),
        )
        | inl whole ↦
            let (k, checked, at, breaks) =
              verify_from-fails s (i + 1) (n + 1) (some e.hash) es f (omega arith) (ground arith) in
            (
              suc k,
              omega arith,
              omega arith,
              (
                omega arith,
                (
                  ground arith,
                  (opt_eq_iff e.previous_hash p).0 link,
                  (str_eq_iff (compute_entry_hash rt e e.previous_hash) e.hash).0 whole,
                  breaks.1,
                ),
                λ l. breaks.2 l.3,
              ),
            )
      ]
    ]
  ]

  -- A reported failure is exact: the entries before the reported count are linked, one more are
  -- not, and the reported sequence is the one expected there.
  pub verify_batch-failure :
      (es : List ChainedAuditEntry) (n : ℕ) (p : Option String) (f : BatchFailure)
      → verify_batch rt es n p false ≡ some f
      → (f.broken_sequence ≡ n + f.entries_checked) × BreaksAt n p es f.entries_checked
  unfolding verify_batch
  verify_batch-failure es n p f h =
      let (k, checked, at, breaks) = verify_from-fails n 0 n p es f (omega arith) h in
      let same : f.entries_checked ≡ k = omega arith in rw same (at, breaks)
