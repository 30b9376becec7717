-- ===== src/Chain/Reports.antt =====
-- backend/audit/chain/queries.py: the reports on the chain. The clock is an argument.
use sentora.Prelude.{
  ℕ, ◌+◌, ◌-◌, ◌/◌, false, Option, none, some, List, [], ◌∷◌, ◌==◌, any, keep, if◌then◌else◌,
}
use sentora.Chain.Entities.{
  VerificationResult, Verification, ChainedAuditEntry, ChainStatusInfo, EpochSummary, ChainDb,
  Result, ok, err, chain_not_initialized,
}
use sentora.Chain.Runtime.{Runtime}
use sentora.Chain.Repository.{
  value_or, get_genesis_entry, get_latest_chained_entry, get_epoch_size, count_chained_entries,
  get_epoch_boundary_entry, save_verification_result,
}
use sentora.Chain.Verify.{is_valid, Alert, verify_full_chain, verify_single_epoch}

-- `broken_at_sequence // epoch_size if broken_at_sequence else None`: a break at 0 gives None.
unfoldable pub alert_epoch : ℕ → Option ℕ → Option ℕ
alert_epoch epoch_size none = none
alert_epoch epoch_size (some n) = if n == 0 then none else some (n / epoch_size)

unfoldable pub make_alert : ℕ → VerificationResult → Option Alert
unfolding alert_epoch
make_alert epoch_size r =
    if is_valid r.status
    then none
    else some (record {
      broken_at_sequence = r.broken_at_sequence;
      reason = r.broken_reason;
      epoch = alert_epoch epoch_size r.broken_at_sequence;
      verified_entries = r.verified_entries;
    })

-- The result stored in `last_verification`.
abbrev pub verification_doc : ℕ → VerificationResult → Verification
verification_doc now r = record {
  status = r.status;
  verified_entries = r.verified_entries;
  chain_valid = is_valid r.status;
  verified_at = now;
  broken_at_sequence = r.broken_at_sequence;
  broken_reason = r.broken_reason;
  verification_time_ms = r.verification_time_ms;
}

module _ (rt : Runtime) where
  -- What `verify_chain` does with a verdict; the event goes to the webhooks, whose errors are swallowed.
  unfoldable pub report :
      ℕ
      → ℕ
      → ChainDb
      → Result VerificationResult
      → Result VerificationResult × ChainDb × Option Alert
  unfolding make_alert
  report now elapsed_ms db (err e) = (err e, db, none)
  report now elapsed_ms db (ok r) =
      let result = record r { verification_time_ms = elapsed_ms } in
      (
        ok result,
        save_verification_result (verification_doc now result) db,
        make_alert (get_epoch_size db) result,
      )

  -- `none` stands for a full verification whose fuel ran out.
  unfoldable pub verify_chain :
      ℕ → ℕ → Option ℕ → ChainDb → Option (Result VerificationResult × ChainDb × Option Alert)
  unfolding report
  verify_chain now elapsed_ms epoch db = elim (get_genesis_entry db) [
    | none ↦ some (err chain_not_initialized, db, none)
    | some _ ↦ elim epoch [
      | some n ↦ some (report now elapsed_ms db (verify_single_epoch rt db n))
      | none ↦ elim (verify_full_chain rt db) [
        | none ↦ none
        | some r ↦ some (report now elapsed_ms db (ok r))
      ]
    ]
  ]

  unfoldable pub get_chain_status : ChainDb → Result ChainStatusInfo
  get_chain_status db = elim (get_genesis_entry db) [
    | none ↦ err chain_not_initialized
    | some genesis ↦
        let latest = value_or genesis (get_latest_chained_entry rt db) in
        ok (record {
          total_entries = count_chained_entries db;
          current_epoch = elim (get_latest_chained_entry rt db) [ none ↦ 0 | some e ↦ e.epoch ];
          current_sequence = elim (get_latest_chained_entry rt db) [
            | none ↦ 0
            | some e ↦ e.sequence
          ];
          genesis_hash = genesis.hash;
          latest_hash = latest.hash;
          chain_valid = elim db.last_verification [ none ↦ none | some v ↦ some v.chain_valid ];
          last_verified_at = elim db.last_verification [
            | none ↦ none
            | some v ↦ some v.verified_at
          ];
        })
  ]

  -- The loop over the completed epochs; one whose first entry is missing is passed over.
  unfoldable pub summaries : ChainDb → List ChainedAuditEntry → List EpochSummary
  summaries db [] = []
  summaries db (epoch_end ∷ es) = elim (get_epoch_boundary_entry rt db epoch_end.epoch false) [
    | none ↦ summaries db es
    | some first_entry ↦
        record {
          epoch = epoch_end.epoch;
          first_sequence = first_entry.sequence;
          last_sequence = epoch_end.sequence;
          entry_count = epoch_end.sequence - first_entry.sequence + 1;
          first_timestamp = first_entry.timestamp;
          last_timestamp = epoch_end.timestamp;
          epoch_final_hash = epoch_end.hash;
          previous_epoch_hash = first_entry.previous_epoch_hash;
          exported = any (λ n. n == epoch_end.epoch) db.exported_epochs;
        }
        ∷ summaries db es
  ]

  -- `get_completed_epochs` orders by epoch; within a chain that is the order of the sequences.
  unfoldable pub get_completed_epochs : ChainDb → List ChainedAuditEntry
  get_completed_epochs db = rt.sort (keep (λ e. e.is_epoch_end) db.log)

  unfoldable pub list_epochs : ChainDb → List EpochSummary
  unfolding summaries get_completed_epochs
  list_epochs db = summaries db (get_completed_epochs db)
