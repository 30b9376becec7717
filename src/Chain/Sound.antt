-- ===== src/Chain/Sound.antt =====
-- What a full verification that counts every sequence shows (backend/audit/chain/queries.py).
use sentora.Prelude.{
  All, List, Option, Option-cases, String, [], ap, arith, false, inl, inr, keep, last?, length,
  none, some, subst, suc, sym, zero, ℕ, ◌+◌, ◌<◌, ◌==◌, ◌∙◌, ◌∷◌, ◌≡◌, ◌≤◌,
}
use sentora.Chain.Dense.{Linked-append, last_hash}
use sentora.Chain.Entities.{ChainDb, ChainedAuditEntry, VerificationResult}
use sentora.Chain.Linked.{Linked, verify_batch-iff-Linked}
use sentora.Chain.Ranges.{
  Ascending-keep, keep-in_range-whole, keep-in_range-bound, keep-in_range-empty,
  keep-in_range-split, last-bound,
}
use sentora.Chain.Repository.{
  get_epoch_size, get_latest_chained_entry, in_range, stream_entries_in_range,
}
use sentora.Chain.Runtime.{Ascending, MongoLaws, Runtime}
use sentora.Chain.Scan.{
  after_batch-progress, batch, batch_end, get_epoch_size-pos, next_progress, verify_batches-done,
  verify_batches-fail, verify_batches-more,
}
use sentora.Chain.Verify.{
  Progress, start_progress, valid_result, verify_batch, verify_batches, verify_full_chain,
}
use native.Mathlib.Decide.{dec_le}

abbrev counted : Option VerificationResult → ℕ
counted none = 0
counted (some r) = r.verified_entries

abbrev last_of : Option VerificationResult → ℕ
last_of none = 0
last_of (some r) = r.last_sequence

abbrev broken_at : Option VerificationResult → Option ℕ
broken_at none = none
broken_at (some r) = r.broken_at_sequence

module _ (rt : Runtime) where
  Linked-length :
      (n b : ℕ) (p : Option String) (es : List ChainedAuditEntry)
      → n ≤ suc b
      → Linked rt n p es
      → All (λ e. e.sequence ≤ b) es
      → n + length es ≤ suc b
  Linked-length n b p [] h l a = omega arith
  Linked-length n b p (e ∷ es) h l a =
      omega (
        arith,
        l.0,
        a.0,
        Linked-length (n + 1) b (some e.hash) es (omega (arith, l.0, a.0)) l.3 a.1,
      )

  -- A batch that passes is the range of the log, linked, and no longer than its sequences allow.
  batch_sound :
      MongoLaws rt
      → (fuel size top start : ℕ) (db : ChainDb) (p : Progress) → Ascending db.log
      → 0 < size
      → start ≤ top
      → verify_batch rt (batch rt fuel db size top start p) start p.previous_hash false ≡ none
      → (batch rt fuel db size top start p
          ≡ keep (in_range start (batch_end rt fuel db size top start p)) db.log)
        × Linked rt start p.previous_hash
            (keep (in_range start (batch_end rt fuel db size top start p)) db.log)
        × (start + length (keep (in_range start (batch_end rt fuel db size top start p)) db.log)
            ≤ suc (batch_end rt fuel db size top start p))
  unfolding stream_entries_in_range
  batch_sound laws fuel size top start db p a h more fine =
      let end = batch_end rt fuel db size top start p in
      let es = keep (in_range start end) db.log in
      let read : batch rt fuel db size top start p ≡ es =
        laws.sort_sorted es (Ascending-keep (in_range start end) db.log a) in
      let front : Linked rt start p.previous_hash es =
        (verify_batch-iff-Linked rt es start p.previous_hash).0
          (subst (λ xs. verify_batch rt xs start p.previous_hash false ≡ none) read fine) in
      (
        read,
        front,
        Linked-length start end p.previous_hash es (omega arith) front
            (keep-in_range-bound start end db.log),
      )

  -- From a round that starts at `start` on, no more than the sequences left are counted, and all of
  -- them only where the entries with these sequences are linked.
  verify_batches_sound :
      MongoLaws rt
      → (fuel size top start : ℕ) (db : ChainDb) (p : Progress) (t u n : ℕ) → Ascending db.log
      → 0 < size
      → start ≤ suc top
      → verify_batches rt fuel db size top start p ≡ some (valid_result t 0 u n)
      → (u ≡ top)
        × (t + start ≤ p.total_verified + suc top)
        × (t + start ≡ p.total_verified + suc top
            → Linked rt start p.previous_hash (keep (in_range start top) db.log))
  unfolding verify_batches
  verify_batches_sound laws zero size top start db p t u n a h s v = absurd (cc v)
  verify_batches_sound laws (suc fuel) size top start db p t u n a h s v = elim (dec_le start top) [
    | no done ↦
        let ended = sym (verify_batches-done rt fuel db size top start p (omega arith)) ∙ v in
        let same = ap counted ended in
        (
          sym (ap last_of ended),
          omega (arith, same),
          λ e. rw (keep-in_range-empty start top db.log (omega arith)) tt,
        )
    | yes more ↦
        let end = batch_end rt fuel db size top start p in
        let q = next_progress rt fuel db size top start p in
        elim (Option-cases
          (verify_batch rt (batch rt fuel db size top start p) start p.previous_hash false)) [
            | inr (f, found) ↦
                let broke : ◌≡◌ {A = Option ℕ} (some f.broken_sequence) none =
                  ap broken_at
                    (sym (verify_batches-fail rt fuel db size top start p f more found) ∙ v) in
                absurd (cc broke)
            | inl fine ↦
                let es = keep (in_range start end) db.log in
                let (read, front, size') =
                  batch_sound laws fuel size top start db p a h more fine in
                let (total, tip) =
                  after_batch-progress (batch rt fuel db size top start p) (end == top) p in
                let (end_top, most, linked) =
                  verify_batches_sound laws fuel size top (end + 1) db q t u n a h (omega arith)
                    (sym (verify_batches-more rt fuel db size top start p more fine) ∙ v) in
                let many = ap length read in
                (
                  end_top,
                  omega (arith, most, total, many, size'),
                  λ e. rw (keep-in_range-split start end top db.log a (omega arith) (omega arith)) (
                      Linked-append rt start (end + 1) p.previous_hash es
                        (keep (in_range (end + 1) top) db.log)
                        (omega (arith, most, total, many, size', e)) front
                        (subst (λ o. Linked rt (end + 1) o (keep (in_range (end + 1) top) db.log))
                          (tip ∙ ap (last_hash p.previous_hash) read)
                          (linked (omega (arith, most, total, many, size', e))))),
                )
          ]
  ]

  -- A full verification of a log in the order of its sequences that is valid and counts as many
  -- entries as there are sequences up to the last shows that the whole log is linked from the genesis.
  pub verify_full_chain_sound :
      MongoLaws rt
      → (db : ChainDb) (top n : ℕ) → Ascending db.log
      → verify_full_chain rt db ≡ some (valid_result (suc top) 0 top n)
      → Linked rt 0 none db.log
  unfolding verify_full_chain get_latest_chained_entry
  verify_full_chain_sound laws db top n a v = elim (Option-cases (get_latest_chained_entry rt db)) [
    | inl empty ↦
        let nothing : verify_full_chain rt db ≡ some (valid_result 0 0 0 0) =
          rw (empty, verify_full_chain) in
        absurd (omega (arith, ap counted (sym nothing ∙ v)))
    | inr (f, latest) ↦
        let begun : verify_full_chain rt db
            ≡ verify_batches rt (f.sequence + 2) db (get_epoch_size db) f.sequence 0
                start_progress =
          rw (latest, verify_full_chain) in
        let (same, most, linked) =
          verify_batches_sound laws (f.sequence + 2) (get_epoch_size db) f.sequence 0 db
            start_progress (suc top) top n a (get_epoch_size-pos db) (omega arith)
            (sym begun ∙ v) in
        let last : last? db.log ≡ some f = rw (laws.sort_sorted db.log a) at latest in
        rw (keep-in_range-whole f.sequence db.log (last-bound db.log f a last)) at linked
          (omega (arith, same))
  ]
