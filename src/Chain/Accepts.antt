-- ===== src/Chain/Accepts.antt =====
-- What `_verify_full_chain` (backend/audit/chain/queries.py) accepts.
use native.Mathlib.Numerals.{add-two}
use sentora.Prelude.{
  ℕ, suc, ◌+◌, ◌≤◌, ◌<◌, ◌≡◌, refl, ap, ◌∙◌, subst, Bool, none, some, List, [], ◌∷◌, ◌++◌, arith,
  ◌==◌, keep, keep-append, append-nil, length, last?,
}
use sentora.Chain.Entities.{ChainedAuditEntry, ChainDb}
use sentora.Chain.Runtime.{Runtime, MongoLaws, Ascending}
use sentora.Chain.Repository.{
  in_range, get_latest_chained_entry, get_epoch_size, stream_entries_in_range,
}
use sentora.Chain.Verify.{
  after_batch, valid_result, verify_batches, verify_full_chain, start_progress,
}
use sentora.Chain.Linked.{Linked, verify_batch-iff-Linked}
use sentora.Chain.Dense.{last_hash, Linked-Ascending, last-Linked, keep-in_range-above}
use sentora.Chain.Scan.{
  Below, Linked-Below, get_epoch_size-pos, after_batch-progress, verify_batches-Linked,
  verify_batches-more, batch, batch_end,
}

Below-keep_all :
    (n : ℕ) (es : List ChainedAuditEntry) → Below (suc n) es → keep (in_range 0 n) es ≡ es
unfolding in_range
Below-keep_all n [] b = refl
Below-keep_all n (e ∷ es) b = ground (arith, Below-keep_all n es)

Ascending-append :
    (n : ℕ) (xs : List ChainedAuditEntry) (y : ChainedAuditEntry) (ys : List ChainedAuditEntry)
    → Below n xs
    → n ≤ y.sequence
    → Ascending xs
    → Ascending (y ∷ ys)
    → Ascending (xs ++ y ∷ ys)
Ascending-append n [] y ys b h a a' = a'
Ascending-append n (x ∷ []) y ys b h a a' = (omega arith, a')
Ascending-append n (x ∷ z ∷ xs) y ys b h a a' = (a.0, Ascending-append n (z ∷ xs) y ys b.1 h a.1 a')

last-append :
    (xs : List ChainedAuditEntry) (y : ChainedAuditEntry) (ys : List ChainedAuditEntry)
    → last? (xs ++ y ∷ ys) ≡ last? (y ∷ ys)
last-append [] y ys = refl
last-append (x ∷ []) y ys = refl
last-append (x ∷ z ∷ xs) y ys = last-append (z ∷ xs) y ys

module _ (rt : Runtime) where
  verify_full_chain-from :
      (db : ChainDb) (f : ChainedAuditEntry) (top : ℕ)
      → last? (rt.sort db.log) ≡ some f
      → f.sequence ≡ top
      → verify_full_chain rt db
        ≡ verify_batches rt (suc (suc top)) db (get_epoch_size db) top 0 start_progress
  unfolding verify_full_chain get_latest_chained_entry
  verify_full_chain-from db f top h s = rw (h, verify_full_chain) (rw (s, add-two))

  -- Over a chain with at least one entry a full verification is valid, and counts every entry.
  pub verify_full_chain_complete :
      MongoLaws rt
      → (db : ChainDb) (e : ChainedAuditEntry) (es : List ChainedAuditEntry) → db.log ≡ e ∷ es
      → Linked rt 0 none db.log
      → (n : ℕ) × (verify_full_chain rt db ≡ some (valid_result (suc (length es)) 0 (length es) n))
  unfolding verify_full_chain get_latest_chained_entry
  verify_full_chain_complete laws db e es h l =
      let l' : Linked rt 0 none (e ∷ es) = rw h at l in
      let (f, last, count) = last-Linked rt 0 none e es l' in
      let latest : last? (rt.sort db.log) ≡ some f =
        rw (laws.sort_sorted db.log (Linked-Ascending rt 0 none db.log l)) (rw h last) in
      let (n, r) =
        verify_batches-Linked rt laws (suc (suc (length es))) (get_epoch_size db) (length es) 0 db
          [] (e ∷ es) start_progress h (get_epoch_size-pos db) (omega arith) (omega arith) tt l' in
      (
        n,
        verify_full_chain-from db f (length es) latest (omega arith)
            ∙ r
            ∙ ap (λ t. some (valid_result t 0 (length es) n)) (omega arith),
      )

  -- The first round of the loop over a log whose first batch holds just `xs`.
  first_round :
      MongoLaws rt
      → (db : ChainDb) (size top : ℕ) (xs ys : List ChainedAuditEntry) → db.log ≡ xs ++ ys
      → 0 < size
      → size ≤ top
      → Below size xs
      → Linked rt 0 none xs
      → Linked rt size (last_hash none xs) ys
      → (b : Bool) × (verify_batches rt (suc (suc top)) db size top 0 start_progress
          ≡ verify_batches rt (suc top) db size top size (after_batch xs b start_progress))
  first_round laws db size top xs ys e pos small below lx ly =
      let end = batch_end rt (suc top) db size top 0 start_progress in
      let to_end : end + 1 ≡ size = omega arith in
      let selected : keep (in_range 0 end) db.log ≡ xs =
        rw
          (
            e,
            keep-append,
            Below-keep_all end xs (subst (λ m. Below m xs) (omega arith) below),
            keep-in_range-above rt size 0 end (last_hash none xs) ys (omega arith) ly,
          )
          (append-nil xs) in
      let read : batch rt (suc top) db size top 0 start_progress ≡ xs =
        unfold stream_entries_in_range in
        ap rt.sort selected ∙ laws.sort_sorted xs (Linked-Ascending rt 0 none xs lx) in
      let fine = (verify_batch-iff-Linked rt xs 0 none).1 lx in
      (
        end == top,
        verify_batches-more rt (suc top) db size top 0 start_progress (omega arith) (rw read fine)
            ∙ cc (read, to_end),
      )

  -- A batch boundary hides a missing tail: if the first batch stops short, and what follows is
  -- linked to the last entry that is there, a full verification is valid although sequences are
  -- missing.
  pub verify_full_chain-hides_gap :
      MongoLaws rt
      → (db : ChainDb) (xs : List ChainedAuditEntry) (y : ChainedAuditEntry)
        (ys : List ChainedAuditEntry)
      → db.log ≡ xs ++ y ∷ ys
      → Linked rt 0 none xs
      → length xs < get_epoch_size db
      → Linked rt (get_epoch_size db) (last_hash none xs) (y ∷ ys)
      → (n : ℕ) × (verify_full_chain rt db
          ≡ some (valid_result (length xs + suc (length ys)) 0 (get_epoch_size db + length ys) n))
  unfolding verify_full_chain get_latest_chained_entry
  verify_full_chain-hides_gap laws db xs y ys e lx short ly =
      let size = get_epoch_size db in
      let top = size + length ys in
      let below : Below size xs = Linked-Below rt 0 size none xs (omega arith) lx in
      let above = Linked-Ascending rt size (last_hash none xs) (y ∷ ys) ly in
      let ordered : Ascending (xs ++ y ∷ ys) =
        Ascending-append size xs y ys below (omega (arith, ly.0)) (Linked-Ascending rt 0 none xs lx)
          above in
      let (f, last, count) = last-Linked rt size (last_hash none xs) y ys ly in
      let latest : last? (rt.sort db.log) ≡ some f =
        rw (e, laws.sort_sorted _ ordered, last-append xs y ys) last in
      let (b, round) =
        first_round laws db size top xs (y ∷ ys) e (get_epoch_size-pos db) (omega arith) below lx
          ly in
      let (total, tip) = after_batch-progress xs b start_progress in
      let (n, r) =
        verify_batches-Linked rt laws (suc top) size top size db xs (y ∷ ys)
          (after_batch xs b start_progress) e (get_epoch_size-pos db) (omega arith) (omega arith)
          below (rw tip ly) in
      (
        n,
        verify_full_chain-from db f top latest (omega arith)
            ∙ round
            ∙ r
            ∙ ap (λ t. some (valid_result t 0 top n)) (omega (arith, total)),
      )
