-- ===== src/Chain/Tests.antt =====
-- Runs of the chain's operations, and the theorems about them at concrete inputs.
use sentora.Prelude.{
  [], arith, false, if◌then◌else◌, inl, length, none, refl, some, str_eq, true, ℕ, ◌↔◌, ◌∷◌, ◌≡◌,
}
use sentora.Chain.Accepts.{verify_full_chain-hides_gap, verify_full_chain_complete}
use sentora.Chain.Append.{IsChain}
use sentora.Chain.Commands.{
  append_chained_entry, append_locked, close_epoch, initialize_chain, insert_one, is_boundary,
  make_entry, prepare_entry, push_entry, stored, stored_entry, try_lock, unacknowledged,
  write_entry,
}
use sentora.Chain.Dense.{Linked-Ascending, last_hash}
use sentora.Chain.Entities.{
  ChainDb, ChainedAuditEntry, VerificationResult, epoch_not_complete, err, gap_detected, ok,
  sequence_gap, write_failed,
}
use sentora.Chain.Export.{
  EpochExport, export_epoch, export_hash_mismatch, fails, is_current, make_export, passes,
  serialise, type_error, verdict, verify_epoch,
}
use sentora.Chain.Exported.{verify_epoch-export, verify_epoch-type_error}
use sentora.Chain.Gapless.{Appended, append-ok, append-succeeds}
use sentora.Chain.Genesis.{initialize_chain-expired}
use sentora.Chain.Hasher.{
  build_hashable, compute_entry_hash, compute_export_hash, concat_entries, normalize_datetime,
  normalize_timestamp, parse_first,
}
use sentora.Chain.Linked.{Linked, verify_batch-iff-Linked}
use sentora.Chain.Repository.{
  find_sequence, get_epoch_size, get_latest_chained_entry, get_next_sequence, get_previous_hash,
  hash_of, mark_epoch_exported, reset_sequence_to, stream_entries_for_epoch,
}
use sentora.Chain.Samples.{
  db_of, environment, event, first, later, loose, second, toy, toy-MongoLaws, toy-ReadsIsoformat,
  toy_digest,
}
use sentora.Chain.Scan.{verify_full_chain-total}
use sentora.Chain.Sound.{verify_full_chain_sound}
use sentora.Chain.Stuck.{IsStuck, append-unacknowledged}
use sentora.Chain.Verify.{BatchFailure, valid_result, verify_batch, verify_from, verify_full_chain}

-- Opens the hashing, so that the toy chain computes.
hashing : Unit {0}
unfolding make_entry compute_entry_hash build_hashable normalize_timestamp normalize_datetime
    parse_first toy
hashing = tt

first-Linked : Linked toy 0 none (first ∷ [])
unfolding hashing
first-Linked = (refl, refl, refl, tt)

both-Linked : Linked toy 0 none (first ∷ second ∷ [])
unfolding hashing
both-Linked = (refl, refl, refl, (refl, refl, refl, tt))

later-Linked : Linked toy 2 (last_hash none (first ∷ [])) (later ∷ [])
unfolding hashing
later-Linked = (refl, refl, refl, tt)

abbrev one : ChainDb
one = db_of (some 1) none (first ∷ [])

abbrev two : ChainDb
two = db_of (some 2) none (first ∷ second ∷ [])

abbrev gap : ChainDb
gap = db_of (some 3) (some 2) (first ∷ later ∷ [])

one-IsChain : IsChain toy one
one-IsChain = record { counter = refl; linked = first-Linked }

verify_batch-iff-Linked_example :
    (verify_batch toy (first ∷ second ∷ []) 0 none false ≡ none)
    ↔ Linked toy 0 none (first ∷ second ∷ [])
verify_batch-iff-Linked_example = verify_batch-iff-Linked toy (first ∷ second ∷ []) 0 none

abbrev skipped : BatchFailure
skipped = record {
  status = gap_detected;
  broken_sequence = 1;
  entries_checked = 1;
  reason = sequence_gap;
}

batch_with_gap : verify_batch toy (first ∷ later ∷ []) 0 none false ≡ some skipped
unfolding hashing verify_batch verify_from
batch_with_gap = refl

abbrev login : ChainedAuditEntry
login = make_entry toy (event "login") 7 1 0 false (some first.hash) none

abbrev one_more : ChainDb
one_more = db_of (some 2) none (first ∷ stored_entry toy login ∷ [])

-- Opens `append_chained_entry` and what it calls.
appending : Unit {0}
unfolding hashing append_chained_entry append_locked prepare_entry get_epoch_size get_next_sequence
    is_boundary close_epoch get_previous_hash find_sequence hash_of write_entry insert_one
    push_entry reset_sequence_to try_lock
appending = tt

append_login :
    append_chained_entry toy (environment (λ k. stored)) (event "login") one ≡ (ok login, one_more)
unfolding appending
append_login = refl

append-ok_example : Appended toy one login one_more
append-ok_example =
    append-ok toy toy-MongoLaws (environment (λ k. stored)) (event "login") one login one_more
      one-IsChain append_login

append-succeeds_example :
    ((append_chained_entry toy (environment (λ k. stored)) (event "login") one).0
      ≡ ok (prepare_entry toy (environment (λ k. stored)).now (event "login") one).0)
    × Appended toy one
        (prepare_entry toy (environment (λ k. stored)).now (event "login") one).0
        (append_chained_entry toy (environment (λ k. stored)) (event "login") one).1
unfolding try_lock
append-succeeds_example =
    append-succeeds toy toy-MongoLaws (environment (λ k. stored)) (event "login") one one-IsChain
      refl (inl refl)

-- The counter stands at a sequence that the log has.
abbrev stuck : ChainDb
stuck = db_of (some 1) none (first ∷ second ∷ [])

stuck-IsStuck : IsStuck stuck
unfolding find_sequence make_entry
stuck-IsStuck = record { next = 1; counter = refl; taken = λ e. cc e }

append-unacknowledged_example :
    ((append_chained_entry toy (environment (λ k. unacknowledged)) (event "login") one).0
      ≡ err (write_failed 1))
    × (length
          (append_chained_entry toy (environment (λ k. unacknowledged)) (event "login") one).1.log
        ≡ 2)
    × IsStuck (append_chained_entry toy (environment (λ k. unacknowledged)) (event "login") one).1
append-unacknowledged_example =
    append-unacknowledged toy (environment (λ k. unacknowledged)) (event "login") one one-IsChain
      (unfold try_lock in refl) refl

abbrev empty : ChainDb
empty = db_of none none []

-- The genesis entry has expired.
abbrev expired : ChainDb
expired = db_of (some 2) none (second ∷ [])

initialize_chain-expired_example :
    IsStuck (initialize_chain toy 9000 "system" none "{}" 1000 expired).1
initialize_chain-expired_example =
    initialize_chain-expired toy 9000 "system" none "{}" 1000 expired
      (unfold find_sequence make_entry in refl) (unfold find_sequence make_entry in λ e. cc e)

verify_full_chain-total_example : (r : VerificationResult) × (verify_full_chain toy gap ≡ some r)
verify_full_chain-total_example = verify_full_chain-total toy gap

verify_full_chain_complete_example :
    (n : ℕ) × (verify_full_chain toy two ≡ some (valid_result 2 0 1 n))
verify_full_chain_complete_example =
    verify_full_chain_complete toy toy-MongoLaws two first (second ∷ []) refl both-Linked

two_accepted : (n : ℕ) × (verify_full_chain toy two ≡ some (valid_result 2 0 1 n))
two_accepted = verify_full_chain_complete toy toy-MongoLaws two first (second ∷ []) refl both-Linked

verify_full_chain_sound_example : Linked toy 0 none two.log
verify_full_chain_sound_example =
    verify_full_chain_sound toy toy-MongoLaws two 1 two_accepted.0
      (Linked-Ascending toy 0 none two.log both-Linked) two_accepted.1

verify_full_chain-hides_gap_example :
    (n : ℕ) × (verify_full_chain toy gap ≡ some (valid_result 2 0 2 n))
unfolding get_epoch_size
verify_full_chain-hides_gap_example =
    verify_full_chain-hides_gap toy toy-MongoLaws gap (first ∷ []) later [] refl first-Linked
      (omega arith) later-Linked

abbrev file : EpochExport
file = make_export toy one 0 first first (first ∷ [])

abbrev forged : EpochExport
forged = make_export toy two 0 first loose (first ∷ loose ∷ [])

file_of_one : export_epoch toy one 0 ≡ (err (epoch_not_complete 0 1), one)
unfolding hashing export_epoch stream_entries_for_epoch is_current get_latest_chained_entry
file_of_one = refl

abbrev closed : ChainDb
closed = db_of (some 1) none ((record first { is_epoch_end = true }) ∷ [])

abbrev closed_file : EpochExport
closed_file =
    make_export toy closed 0 (record first { is_epoch_end = true })
      (record first { is_epoch_end = true }) ((record first { is_epoch_end = true }) ∷ [])

export_closed :
    export_epoch toy closed 0 ≡ (ok closed_file, record closed { exported_epochs = 0 ∷ [] })
unfolding hashing export_epoch stream_entries_for_epoch is_current get_latest_chained_entry
    get_epoch_size compute_export_hash concat_entries mark_epoch_exported
export_closed = refl

verify_epoch-export_example :
    verify_epoch toy closed_file
    ≡ verdict (
        if str_eq
          (compute_export_hash toy (serialise toy (record first { is_epoch_end = true }) ∷ []))
          (compute_export_hash toy ((record first { is_epoch_end = true }) ∷ []))
        then passes 1
        else fails 1 none export_hash_mismatch)
unfolding hashing stream_entries_for_epoch
verify_epoch-export_example =
    verify_epoch-export toy toy-ReadsIsoformat toy_digest closed 0 closed_file
      (record closed { exported_epochs = 0 ∷ [] }) (record first { is_epoch_end = true }) []
      export_closed refl (refl, refl, refl, tt)

-- The toy serialisation writes a datetime with a space and its text with a T, as Python does: the
-- export is refused.
export_refused : verify_epoch toy closed_file ≡ verdict (fails 1 none export_hash_mismatch)
unfolding hashing compute_export_hash concat_entries
export_refused = verify_epoch-export_example

-- The text of a broken link cannot be written when the entry has no link.
forged_raises : verify_epoch toy forged ≡ type_error
unfolding hashing
forged_raises =
    verify_epoch-type_error toy forged (serialise toy first) [] (serialise toy loose) [] refl
      (refl, (refl, tt)) (refl, refl, refl, tt) refl refl
