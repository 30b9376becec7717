-- ===== src/Chain/Repository.antt =====
-- backend/audit/chain/repository.py. A query's filter is a list filter; the unique index on
-- `sequence` (backend/db_indexes.py) lets a sequence stand for the `_id` of its document.
use sentora.Prelude.{
  ℕ, ◌+◌, ◌-◌, String, Bool, true, ◌&&◌, Option, none, some, List, [], ◌∷◌, ◌++◌, leb, ◌==◌, any,
  keep, head?, last?, length, if◌then◌else◌,
}
use sentora.Chain.Entities.{ChainedAuditEntry, Verification, ChainDb}
use sentora.Chain.Runtime.{Runtime}

abbrev pub default_epoch_size : ℕ
default_epoch_size = 1000

abbrev pub value_or {ℓ} : {A : Type ℓ} → A → Option A → A
value_or d none = d
value_or d (some a) = a

-- The counter document is created at 0 by the upsert; `$inc` returns the new value.
unfoldable pub get_next_sequence : ChainDb → ℕ × ChainDb
get_next_sequence db =
    let value = value_or 0 db.sequence_counter + 1 in
    (value - 1, record db { sequence_counter = some value })

unfoldable pub reset_sequence_to : ℕ → ChainDb → ChainDb
reset_sequence_to value db = record db { sequence_counter = some value }

-- `find_one({"sequence": n})`
unfoldable pub find_sequence : ℕ → List ChainedAuditEntry → Option ChainedAuditEntry
find_sequence n [] = none
find_sequence n (e ∷ es) = if e.sequence == n then some e else find_sequence n es

unfoldable pub hash_of : Option ChainedAuditEntry → Option String
hash_of none = none
hash_of (some e) = some e.hash

unfoldable pub get_previous_hash : ChainDb → ℕ → Option String
unfolding hash_of
get_previous_hash db sequence =
    if sequence == 0 then none else hash_of (find_sequence (sequence - 1) db.log)

unfoldable pub get_genesis_entry : ChainDb → Option ChainedAuditEntry
get_genesis_entry db = find_sequence 0 db.log

unfoldable pub count_chained_entries : ChainDb → ℕ
count_chained_entries db = length db.log

unfoldable pub in_range : ℕ → ℕ → ChainedAuditEntry → Bool
in_range start_sequence end_sequence e =
    leb start_sequence e.sequence && leb e.sequence end_sequence

unfoldable pub in_epoch : ℕ → ChainedAuditEntry → Bool
in_epoch epoch e = e.epoch == epoch

module _ (rt : Runtime) where
  unfoldable pub get_latest_chained_entry : ChainDb → Option ChainedAuditEntry
  get_latest_chained_entry db = last? (rt.sort db.log)

  unfoldable pub stream_entries_for_epoch : ChainDb → ℕ → List ChainedAuditEntry
  unfolding in_epoch
  stream_entries_for_epoch db epoch = rt.sort (keep (in_epoch epoch) db.log)

  unfoldable pub stream_entries_in_range : ChainDb → ℕ → ℕ → List ChainedAuditEntry
  unfolding in_range
  stream_entries_in_range db start_sequence end_sequence =
      rt.sort (keep (in_range start_sequence end_sequence) db.log)

  unfoldable pub get_epoch_boundary_entry : ChainDb → ℕ → Bool → Option ChainedAuditEntry
  unfolding in_epoch
  get_epoch_boundary_entry db epoch last =
      let entries = rt.sort (keep (in_epoch epoch) db.log) in
      if last then last? entries else head? entries

-- `update_one({"_id": …}, {"$set": {"is_epoch_end": True}})`
unfoldable pub set_epoch_end : ℕ → List ChainedAuditEntry → List ChainedAuditEntry
set_epoch_end n [] = []
set_epoch_end n (e ∷ es) =
    if e.sequence == n then (record e { is_epoch_end = true }) ∷ es else e ∷ set_epoch_end n es

unfoldable pub mark_epoch_end : ℕ → ChainDb → ChainDb
mark_epoch_end n db = record db { log = set_epoch_end n db.log }

unfoldable pub save_verification_result : Verification → ChainDb → ChainDb
save_verification_result v db = record db { last_verification = some v }

-- `if meta and meta.get("epoch_size")`: a stored 0 is falsy.
unfoldable pub get_epoch_size : ChainDb → ℕ
get_epoch_size db = elim db.chain_config [
  | none ↦ default_epoch_size
  | some size ↦ if size == 0 then default_epoch_size else size
]

unfoldable pub save_epoch_size : ℕ → ChainDb → ChainDb
save_epoch_size size db = record db { chain_config = some size }

-- `$addToSet`
unfoldable pub mark_epoch_exported : ℕ → ChainDb → ChainDb
mark_epoch_exported epoch db =
    if any (λ n. n == epoch) db.exported_epochs
    then db
    else record db { exported_epochs = db.exported_epochs ++ epoch ∷ [] }
