-- ===== src/Chain/Scan.antt =====
-- The loop of `_verify_full_chain` (backend/audit/chain/queries.py): it ends, and it accepts what is
-- linked.
use native.Mathlib.Decide.{dec_le}
use sentora.Prelude.{
  ℕ, zero, suc, ◌+◌, ◌-◌, ◌≤◌, ◌<◌, min, ◌≡◌, refl, ap, sym, ◌∙◌, inl, inr, Bool, false, Option,
  none, some, List, [], ◌∷◌, ◌++◌, arith, ◌==◌, Option-cases, All, keep, take, drop,
  take-append-drop, keep-append, length, length-take, length-drop, append_assoc, last?, String,
}
use sentora.Chain.Entities.{ChainedAuditEntry, ChainDb, VerificationResult}
use sentora.Chain.Runtime.{Runtime, MongoLaws}
use sentora.Chain.Repository.{
  in_range, get_latest_chained_entry, get_epoch_size, stream_entries_in_range,
}
use sentora.Chain.Verify.{
  BatchFailure, failed_result, verify_batch, Progress, after_batch, valid_result, verify_batches,
  verify_full_chain, start_progress,
}
use sentora.Chain.Linked.{Linked, verify_batch-iff-Linked}
use sentora.Chain.Dense.{last_hash, Linked-Ascending, Linked-append_inv, keep-in_range-take}

-- The size falls back to the default when it is missing or 0.
pub get_epoch_size-pos : (db : ChainDb) → 0 < get_epoch_size db
unfolding get_epoch_size
get_epoch_size-pos db = ground arith

abbrev pub Below : ℕ → List ChainedAuditEntry → Type 0
Below n = All (λ e. e.sequence < n)

pub Below-keep :
    (n a b : ℕ) (es : List ChainedAuditEntry) → n ≤ a → Below n es → keep (in_range a b) es ≡ []
unfolding in_range
Below-keep n a b [] h l = refl
Below-keep n a b (e ∷ es) h l = ground (arith, Below-keep n a b es)

pub Below-append :
    (n m : ℕ) (xs ys : List ChainedAuditEntry)
    → n ≤ m
    → Below n xs
    → Below m ys
    → Below m (xs ++ ys)
Below-append n m [] ys h l r = r
Below-append n m (x ∷ xs) ys h l r = (omega arith, Below-append n m xs ys h l.1 r)

pub last_hash-last :
    (p : Option String) (es : List ChainedAuditEntry) (e : ChainedAuditEntry)
    → last? es ≡ some e
    → last_hash p es ≡ some e.hash
last_hash-last p [] e h = cc
last_hash-last p (x ∷ []) e h = cc
last_hash-last p (x ∷ y ∷ es) e h = last_hash-last (some x.hash) (y ∷ es) e h

pub last-cons :
    (x : ChainedAuditEntry) (xs : List ChainedAuditEntry)
    → (e : ChainedAuditEntry) × (last? (x ∷ xs) ≡ some e)
last-cons x [] = (x, refl)
last-cons x (y ∷ xs) = last-cons y xs

pub after_batch-progress :
    (es : List ChainedAuditEntry) (at_end : Bool) (p : Progress)
    → ((after_batch es at_end p).total_verified ≡ p.total_verified + length es)
      × ((after_batch es at_end p).previous_hash ≡ last_hash p.previous_hash es)
unfolding after_batch
after_batch-progress [] at_end p = (omega arith, refl)
after_batch-progress (x ∷ xs) at_end p =
    let (e, found) = last-cons x xs in
    (
      rw (found, after_batch),
      rw (found, after_batch) (sym (last_hash-last p.previous_hash (x ∷ xs) e found)),
    )

module _ (rt : Runtime) where
  pub Linked-Below :
      (n m : ℕ) (p : Option String) (es : List ChainedAuditEntry)
      → n + length es ≤ m
      → Linked rt n p es
      → Below m es
  Linked-Below n m p [] h l = tt
  Linked-Below n m p (e ∷ es) h l =
      (omega arith, Linked-Below (n + 1) m (some e.hash) es (omega arith) l.3)

  module _ (fuel : ℕ) (db : ChainDb) (size top start : ℕ) (p : Progress) where
    abbrev pub batch_end : ℕ
    batch_end = min (start + size - 1) top

    abbrev pub batch : List ChainedAuditEntry
    batch = stream_entries_in_range rt db start batch_end

    abbrev pub next_progress : Progress
    next_progress = after_batch batch (batch_end == top) p

    pub verify_batches-done :
        top < start
        → verify_batches rt (suc fuel) db size top start p
          ≡ some (valid_result p.total_verified 0 top p.epochs_verified)
    unfolding verify_batches
    verify_batches-done h = ground arith

    pub verify_batches-more :
        start ≤ top
        → verify_batch rt batch start p.previous_hash false ≡ none
        → verify_batches rt (suc fuel) db size top start p
          ≡ verify_batches rt fuel db size top (batch_end + 1) next_progress
    unfolding verify_batches
    verify_batches-more h fine = ground arith

    pub verify_batches-fail :
        (f : BatchFailure)
        → start ≤ top
        → verify_batch rt batch start p.previous_hash false ≡ some f
        → verify_batches rt (suc fuel) db size top start p
          ≡ some (failed_result f (p.total_verified + f.entries_checked) 0 p.epochs_verified)
    unfolding verify_batches
    verify_batches-fail f h found = ground arith

  -- The loop ends with a result when there is a round of fuel for each sequence left, and one more.
  verify_batches-total :
      (fuel : ℕ) (db : ChainDb) (size top start : ℕ) (p : Progress)
      → 0 < size
      → start ≤ suc top
      → suc top < start + fuel
      → (r : VerificationResult) × (verify_batches rt fuel db size top start p ≡ some r)
  verify_batches-total zero db size top start p h s f = absurd (omega arith)
  verify_batches-total (suc fuel) db size top start p h s f = elim (dec_le start top) [
    | no done ↦ (_, verify_batches-done fuel db size top start p (omega arith))
    | yes more ↦
        elim (Option-cases
          (verify_batch rt (batch fuel db size top start p) start p.previous_hash false)) [
            | inr (failure, found) ↦
                (_, verify_batches-fail fuel db size top start p failure more found)
            | inl fine ↦
                let (r, e) =
                  verify_batches-total fuel db size top (batch_end fuel db size top start p + 1)
                    (next_progress fuel db size top start p) h (omega arith) (omega arith) in
                (r, verify_batches-more fuel db size top start p more fine ∙ e)
          ]
  ]

  -- A full verification always ends with a result.
  pub verify_full_chain-total :
      (db : ChainDb) → (r : VerificationResult) × (verify_full_chain rt db ≡ some r)
  unfolding verify_full_chain
  verify_full_chain-total db = elim (Option-cases (get_latest_chained_entry rt db)) [
    | inl empty ↦ (valid_result 0 0 0 0, rw (empty, verify_full_chain))
    | inr (latest, found) ↦
        let (r, e) =
          (verify_batches-total (latest.sequence + 2) db (get_epoch_size db) latest.sequence 0
            start_progress (get_epoch_size-pos db) (omega arith) (omega arith)) in
        (r, rw (found, verify_full_chain) e)
  ]

  -- The batch read at `start` is the next stretch of the entries that are linked from there on.
  batch-Linked :
      MongoLaws rt
      → (start end k : ℕ) (db : ChainDb) (xs zs : List ChainedAuditEntry) (q : Option String)
      → db.log ≡ xs ++ zs
      → start + k ≡ suc end
      → k ≤ length zs
      → Below start xs
      → Linked rt start q zs
      → (stream_entries_in_range rt db start end ≡ take k zs)
        × Linked rt start q (take k zs)
        × Linked rt (end + 1) (last_hash q (take k zs)) (drop k zs)
  unfolding stream_entries_in_range
  batch-Linked laws start end k db xs zs q e c h b l =
      let (front, rest) =
        Linked-append_inv rt start (end + 1) q (take k zs) (drop k zs)
          (omega (arith, length-take k zs)) (rw take-append-drop l) in
      let selected : keep (in_range start end) db.log ≡ take k zs =
        rw (e, keep-append, Below-keep start start end xs (omega arith) b)
          (keep-in_range-take rt start start end k q zs (omega arith) c l) in
      (ap rt.sort selected ∙ laws.sort_sorted _ (Linked-Ascending rt start q _ front), front, rest)

  -- Over entries that are linked from `start` on, behind others with lower sequences, the loop
  -- accepts and counts them all.
  pub verify_batches-Linked :
      MongoLaws rt
      → (fuel size top start : ℕ) (db : ChainDb) (xs ys : List ChainedAuditEntry) (p : Progress)
      → db.log ≡ xs ++ ys
      → 0 < size
      → start + length ys ≡ suc top
      → suc top < start + fuel
      → Below start xs
      → Linked rt start p.previous_hash ys
      → (n : ℕ) × (verify_batches rt fuel db size top start p
          ≡ some (valid_result (p.total_verified + length ys) 0 top n))
  verify_batches-Linked laws zero size top start db xs ys p e h c f b l = absurd (omega arith)
  verify_batches-Linked laws (suc fuel) size top start db xs [] p e h c f b l = (
    p.epochs_verified,
    verify_batches-done fuel db size top start p (omega arith)
        ∙ ap (λ n. some (valid_result n 0 top p.epochs_verified)) (omega arith),
  )
  verify_batches-Linked laws (suc fuel) size top start db xs (y ∷ ys) p e h c f b l =
      let zs = y ∷ ys in
      let end = batch_end fuel db size top start p in
      let k = end + 1 - start in
      let (read, front, rest) =
        batch-Linked laws start end k db xs zs p.previous_hash e (omega arith) (omega arith) b l in
      let (total, tip) = after_batch-progress (batch fuel db size top start p) (end == top) p in
      let fine : verify_batch rt (batch fuel db size top start p) start p.previous_hash false
          ≡ none =
        rw read ((verify_batch-iff-Linked rt (take k zs) start p.previous_hash).1 front) in
      let (n, r) =
        verify_batches-Linked laws fuel size top (end + 1) db (xs ++ take k zs) (drop k zs)
          (next_progress fuel db size top start p) (rw append_assoc (rw take-append-drop e)) h
          (omega (arith, length-drop k zs)) (omega arith)
          (Below-append start (end + 1) xs (take k zs) (omega arith) b (
            Linked-Below start (end + 1) p.previous_hash (take k zs)
              (omega (arith, length-take k zs)) front))
          (rw tip (rw read rest)) in
      (
        n,
        verify_batches-more fuel db size top start p (omega arith) fine
            ∙ r
            ∙ ap (λ t. some (valid_result t 0 top n))
                (omega (arith, total, length-drop k zs, ap length read, length-take k zs)),
      )
