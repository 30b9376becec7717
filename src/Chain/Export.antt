-- ===== src/Chain/Export.antt =====
-- The export of an epoch (backend/audit/chain/queries.py) and its verification away from the
-- database (tools/sentora_verify/verifier.py). Messages are left out, but for the slices
-- `hash[:16]` in them, which raise TypeError on None.
use sentora.Prelude.{
  ℕ, ◌+◌, String, Bool, true, false, not, ◌&&◌, Option, none, some, List, [], ◌∷◌, map, ◌==◌,
  opt_eq, str_eq, length, head?, last?, if◌then◌else◌,
}
use sentora.Chain.Entities.{
  Timestamp, instant, iso_text, ChainedAuditEntry, ChainDb, Result, ok, err, epoch_not_found,
  epoch_not_complete,
}
use sentora.Chain.Runtime.{Runtime}
use sentora.Chain.Hasher.{compute_entry_hash, compute_export_hash}
use sentora.Chain.Repository.{
  get_latest_chained_entry, get_epoch_size, stream_entries_for_epoch, mark_epoch_exported,
}

pub record ExportMetadata : Type 0 where
  pub epoch : ℕ
  pub epoch_size : ℕ
  pub first_sequence : ℕ
  pub last_sequence : ℕ
  pub entry_count : ℕ
  pub previous_epoch_hash : Option String
  pub epoch_final_hash : String
  pub export_hash : Option String

pub record EpochExport : Type 0 where
  pub metadata : ExportMetadata
  pub entries : List ChainedAuditEntry

pub data FailReason : Type 0 where
  sequence_gap hash_mismatch export_hash_mismatch missing_epoch_link : FailReason
  epoch_link_mismatch : FailReason

-- `VerifyResult`, with the reason in place of the message.
pub record VerifyResult : Type 0 where
  pub valid : Bool
  pub entries_checked : ℕ
  pub broken_at_sequence : Option ℕ
  pub broken_reason : Option FailReason

pub data Outcome : Type 0 where
  verdict : VerifyResult → Outcome
  type_error : Outcome

abbrev pub fails : ℕ → Option ℕ → FailReason → VerifyResult
fails checked at reason = record {
  valid = false;
  entries_checked = checked;
  broken_at_sequence = at;
  broken_reason = some reason;
}

abbrev pub passes : ℕ → VerifyResult
passes checked = record {
  valid = true;
  entries_checked = checked;
  broken_at_sequence = none;
  broken_reason = none;
}

abbrev pub no_entries : VerifyResult
no_entries = record {
  valid = false;
  entries_checked = 0;
  broken_at_sequence = none;
  broken_reason = none;
}

-- Step 1 of `verify_epoch`, from index `i` on; `none` when there is no gap.
unfoldable pub find_gap : ℕ → ℕ → List ChainedAuditEntry → Option VerifyResult
find_gap first_seq i [] = none
find_gap first_seq i (e ∷ es) =
    if not (e.sequence == first_seq + i)
    then some (fails i (some (first_seq + i)) sequence_gap)
    else find_gap first_seq (i + 1) es

-- The message of a broken link slices `previous_hash`, which may be None.
unfoldable pub broken_link : ℕ → ChainedAuditEntry → Outcome
broken_link i e = elim e.previous_hash [
  | none ↦ type_error
  | some _ ↦ verdict (fails i (some e.sequence) hash_mismatch)
]

module _ (rt : Runtime) where
  abbrev pub serialise_timestamp : Timestamp → Timestamp
  serialise_timestamp (instant t) = iso_text (rt.isoformat t)
  serialise_timestamp (iso_text s) = iso_text s

  -- `e["timestamp"] = e["timestamp"].isoformat()`
  abbrev pub serialise : ChainedAuditEntry → ChainedAuditEntry
  serialise e = record e { timestamp = serialise_timestamp e.timestamp }

  abbrev pub make_export :
      ChainDb → ℕ → ChainedAuditEntry → ChainedAuditEntry → List ChainedAuditEntry → EpochExport
  make_export db epoch first_entry last_entry entries = record {
    metadata = record {
      epoch = epoch;
      epoch_size = get_epoch_size db;
      first_sequence = first_entry.sequence;
      last_sequence = last_entry.sequence;
      entry_count = length entries;
      previous_epoch_hash = first_entry.previous_epoch_hash;
      epoch_final_hash = last_entry.hash;
      export_hash = some (compute_export_hash rt entries);
    };
    entries = map serialise entries;
  }

  -- Is `epoch` the epoch of the latest entry?
  unfoldable pub is_current : ChainDb → ℕ → Bool
  is_current db epoch = elim (get_latest_chained_entry rt db) [
    | none ↦ false
    | some latest ↦ latest.epoch == epoch
  ]

  unfoldable pub export_epoch : ChainDb → ℕ → Result EpochExport × ChainDb
  unfolding is_current
  export_epoch db epoch =
      let entries = stream_entries_for_epoch rt db epoch in
      elim (head? entries) [
        | none ↦ (err (epoch_not_found epoch), db)
        | some first_entry ↦ elim (last? entries) [
          | none ↦ (err (epoch_not_found epoch), db)
          | some last_entry ↦
              if not last_entry.is_epoch_end && is_current db epoch
              then (err (epoch_not_complete epoch (length entries)), db)
              else (
                ok (make_export db epoch first_entry last_entry entries),
                mark_epoch_exported epoch db,
              )
        ]
      ]

  -- Step 2, with the entry before the one at index `i`; `none` when every hash and link is right.
  unfoldable pub find_break : ℕ → Option ChainedAuditEntry → List ChainedAuditEntry → Option Outcome
  find_break i prev [] = none
  find_break i prev (e ∷ es) =
      let rest = find_break (i + 1) (some e) es in
      if not (str_eq (compute_entry_hash rt e e.previous_hash) e.hash)
      then some (verdict (fails i (some e.sequence) hash_mismatch))
      else elim prev [
        | none ↦ rest
        | some p ↦ if opt_eq e.previous_hash (some p.hash) then rest else some (broken_link i e)
      ]

  -- Step 3: an absent or empty export hash is not compared.
  unfoldable pub check_export_hash : EpochExport → VerifyResult
  check_export_hash x = elim x.metadata.export_hash [
    | none ↦ passes (length x.entries)
    | some h ↦
        if not (str_eq h "") && not (str_eq (compute_export_hash rt x.entries) h)
        then fails (length x.entries) none export_hash_mismatch
        else passes (length x.entries)
  ]

  unfoldable pub verify_epoch : EpochExport → Outcome
  verify_epoch x = elim (head? x.entries) [
    | none ↦ verdict no_entries
    | some first ↦ elim (find_gap first.sequence 0 x.entries) [
      | some r ↦ verdict r
      | none ↦ elim (find_break 0 none x.entries) [
        | some o ↦ o
        | none ↦ verdict (check_export_hash x)
      ]
    ]
  ]

-- `verify_cross_epoch`: the first entry of an epoch against the last of the one before.
unfoldable pub verify_cross_epoch : EpochExport → EpochExport → VerifyResult
verify_cross_epoch current previous = elim (last? previous.entries) [
  | none ↦ no_entries
  | some prev_final ↦ elim (head? current.entries) [
    | none ↦ no_entries
    | some curr_first ↦ elim curr_first.previous_epoch_hash [
      | none ↦
          if opt_eq curr_first.previous_hash (some prev_final.hash)
          then passes 1
          else fails 1 none missing_epoch_link
      | some h ↦
          if not (str_eq h prev_final.hash) then fails 1 none epoch_link_mismatch else passes 1
    ]
  ]
]
