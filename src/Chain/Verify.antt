-- ===== src/Chain/Verify.antt =====
-- backend/audit/chain/queries.py: verification of the chain in the database.
use sentora.Prelude.{
  ℕ, zero, suc, ◌+◌, ◌-◌, min, String, Bool, true, false, not, ◌&&◌, ◌||◌, Option, none, some, List,
  [], ◌∷◌, ltb, leb, ◌==◌, opt_eq, str_eq, length, head?, last?, if◌then◌else◌,
}
use sentora.Chain.Entities.{
  ChainStatus, valid, broken, gap_detected, BrokenReason, hash_mismatch, sequence_gap,
  ChainedAuditEntry, VerificationResult, ChainDb, Result, ok, err, epoch_not_found,
}
use sentora.Chain.Runtime.{Runtime}
use sentora.Chain.Hasher.{compute_entry_hash}
use sentora.Chain.Repository.{
  get_latest_chained_entry, get_epoch_size, stream_entries_in_range, stream_entries_for_epoch,
}

-- The tuple that `_verify_batch` returns on failure.
pub record BatchFailure : Type 0 where
  pub status : ChainStatus
  pub broken_sequence : ℕ
  pub entries_checked : ℕ
  pub reason : BrokenReason

abbrev pub is_valid : ChainStatus → Bool
is_valid valid = true
is_valid broken = false
is_valid gap_detected = false

-- The variables of `_verify_full_chain` that change from batch to batch.
pub record Progress : Type 0 where
  pub total_verified : ℕ
  pub epochs_verified : ℕ
  pub previous_hash : Option String

-- The payload of the webhook `audit.chain.integrity_failure`.
pub record Alert : Type 0 where
  pub broken_at_sequence : Option ℕ
  pub reason : Option BrokenReason
  pub epoch : Option ℕ
  pub verified_entries : ℕ

abbrev pub failed_result : BatchFailure → ℕ → ℕ → ℕ → VerificationResult
failed_result f verified first epochs = record {
  status = f.status;
  verified_entries = verified;
  first_sequence = first;
  last_sequence = f.broken_sequence;
  epochs_verified = epochs;
  broken_at_sequence = some f.broken_sequence;
  broken_reason = some f.reason;
  verification_time_ms = 0;
}

abbrev pub valid_result : ℕ → ℕ → ℕ → ℕ → VerificationResult
valid_result verified first last epochs = record {
  status = valid;
  verified_entries = verified;
  first_sequence = first;
  last_sequence = last;
  epochs_verified = epochs;
  broken_at_sequence = none;
  broken_reason = none;
  verification_time_ms = 0;
}

-- What a verified batch adds.
unfoldable pub after_batch : List ChainedAuditEntry → Bool → Progress → Progress
after_batch entries at_end p = elim (last? entries) [
  | none ↦ p
  | some e ↦ record {
    total_verified = p.total_verified + length entries;
    epochs_verified = if e.is_epoch_end || at_end then e.epoch + 1 else p.epochs_verified;
    previous_hash = some e.hash;
  }
]

abbrev pub start_progress : Progress
start_progress = record { total_verified = 0; epochs_verified = 0; previous_hash = none }

module _ (rt : Runtime) where
  -- The loop of `_verify_batch` from index `i` on, with `prev_hash` as it then is.
  unfoldable pub verify_from :
      ℕ → ℕ → Option String → Bool → List ChainedAuditEntry → Option BatchFailure
  verify_from expected_start i prev_hash skip_first [] = none
  verify_from expected_start i prev_hash skip_first (e ∷ es) =
      if not (e.sequence == expected_start + i)
      then some (record {
        status = gap_detected;
        broken_sequence = expected_start + i;
        entries_checked = i;
        reason = sequence_gap;
      })
      else if (not skip_first || ltb 0 i) && not (opt_eq e.previous_hash prev_hash)
      then some (record {
        status = broken;
        broken_sequence = e.sequence;
        entries_checked = i;
        reason = hash_mismatch;
      })
      else if not (str_eq (compute_entry_hash rt e e.previous_hash) e.hash)
      then some (record {
        status = broken;
        broken_sequence = e.sequence;
        entries_checked = i;
        reason = hash_mismatch;
      })
      else verify_from expected_start (i + 1) (some e.hash) skip_first es

  unfoldable pub verify_batch :
      List ChainedAuditEntry → ℕ → Option String → Bool → Option BatchFailure
  verify_batch entries expected_start expected_prev_hash skip_first_prev_check =
      verify_from expected_start 0 expected_prev_hash skip_first_prev_check entries

  -- The `while batch_start <= max_sequence` loop; `none` is fuel that ran out.
  unfoldable pub verify_batches : ℕ → ChainDb → ℕ → ℕ → ℕ → Progress → Option VerificationResult
  verify_batches zero db epoch_size max_sequence batch_start p = none
  verify_batches (suc fuel) db epoch_size max_sequence batch_start p =
      elim (leb batch_start max_sequence) [
        | false ↦ some (valid_result p.total_verified 0 max_sequence p.epochs_verified)
        | true ↦
            let batch_end = min (batch_start + epoch_size - 1) max_sequence in
            let entries = stream_entries_in_range rt db batch_start batch_end in
            elim (verify_batch entries batch_start p.previous_hash false) [
              | some f ↦
                  some (failed_result f (p.total_verified + f.entries_checked) 0 p.epochs_verified)
              | none ↦
                  verify_batches fuel db epoch_size max_sequence (batch_end + 1)
                    (after_batch entries (batch_end == max_sequence) p)
            ]
      ]

  -- Each round goes past at least one sequence, so one more round than there are sequences is enough.
  unfoldable pub verify_full_chain : ChainDb → Option VerificationResult
  verify_full_chain db = elim (get_latest_chained_entry rt db) [
    | none ↦ some (valid_result 0 0 0 0)
    | some latest ↦
        verify_batches (latest.sequence + 2) db (get_epoch_size db) latest.sequence 0 start_progress
  ]

  unfoldable pub verify_single_epoch : ChainDb → ℕ → Result VerificationResult
  verify_single_epoch db epoch =
      let entries = stream_entries_for_epoch rt db epoch in
      elim (head? entries) [
        | none ↦ err (epoch_not_found epoch)
        | some first ↦ elim (last? entries) [
          | none ↦ err (epoch_not_found epoch)
          | some last ↦ elim (verify_batch entries first.sequence first.previous_hash true) [
            | some f ↦ ok (failed_result f f.entries_checked first.sequence 0)
            | none ↦ ok (valid_result (length entries) first.sequence last.sequence 1)
          ]
        ]
      ]
