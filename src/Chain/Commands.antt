-- ===== src/Chain/Commands.antt =====
-- backend/audit/chain/commands.py. The lock, the clock and the outcome of each write come from
-- outside; Lock.antt models the lock itself.
use sentora.Prelude.{
  ℕ, zero, suc, ◌+◌, ◌-◌, ◌/◌, ◌%◌, ◌&&◌, String, Bool, true, false, Option, none, some, [], ◌∷◌,
  ◌++◌, ltb, ◌==◌, if◌then◌else◌,
}
use sentora.Chain.Entities.{
  Timestamp, instant, iso_text, ChainedAuditEntry, ChainDb, Result, ok, err, lock_unavailable,
  write_failed,
}
use sentora.Chain.Runtime.{Runtime}
use sentora.Chain.Hasher.{compute_entry_hash}
use sentora.Chain.Repository.{
  value_or, get_next_sequence, reset_sequence_to, find_sequence, get_previous_hash,
  get_genesis_entry, get_latest_chained_entry, get_epoch_boundary_entry, mark_epoch_end,
  get_epoch_size, save_epoch_size,
}

-- What becomes of an `insert_one`: done; refused; done, but with the acknowledgement lost.
pub data Write : Type 0 where
  stored refused unacknowledged : Write

pub record Environment : Type 0 where
  -- `await lock.acquire()` at each attempt
  pub acquires : ℕ → Bool
  pub now : ℕ
  -- the outcome of each attempt to insert
  pub writes : ℕ → Write

pub record Event : Type 0 where
  pub domain : String
  pub action : String
  pub actor : String
  pub status : String
  pub summary : String
  pub details : String
  pub tenant_id : Option String

abbrev pub max_lock_attempts : ℕ
max_lock_attempts = 10

-- The `for _lock_attempt in range(…)` loop, with the attempts left; false is its `else` branch.
unfoldable pub try_lock : (ℕ → Bool) → ℕ → ℕ → Bool
try_lock acquires zero attempt = false
try_lock acquires (suc left) attempt = elim (acquires attempt) [
  | true ↦ true
  | false ↦ try_lock acquires left (attempt + 1)
]

unfoldable pub is_boundary : ℕ → ℕ → Bool
is_boundary epoch_size sequence = ltb 0 sequence && sequence % epoch_size == 0

-- `details` of the event is the dict with the version, the algorithm and the epoch size.
abbrev pub genesis_event : String → Option String → String → Event
genesis_event initialized_by tenant_id details = record {
  domain = "system";
  action = "system.genesis";
  actor = initialized_by;
  status = "info";
  summary = "Audit hash-chain initialized";
  details = details;
  tenant_id = tenant_id;
}

module _ (rt : Runtime) where
  abbrev pub stored_timestamp : Timestamp → Timestamp
  stored_timestamp (instant t) = instant (rt.stored_datetime t)
  stored_timestamp (iso_text s) = iso_text s

  -- An entry as the database keeps it.
  abbrev pub stored_entry : ChainedAuditEntry → ChainedAuditEntry
  stored_entry e = record e { timestamp = stored_timestamp e.timestamp }

  unfoldable pub push_entry : ChainedAuditEntry → ChainDb → ChainDb
  push_entry e db = record db { log = db.log ++ stored_entry e ∷ [] }

  -- The unique index refuses a second document with the same sequence.
  unfoldable pub insert_one : Write → ChainedAuditEntry → ChainDb → Bool × ChainDb
  unfolding push_entry
  insert_one w e db = elim (find_sequence e.sequence db.log) [
    | some _ ↦ (false, db)
    | none ↦ elim w [
      | stored ↦ (true, push_entry e db)
      | refused ↦ (false, db)
      | unacknowledged ↦ (false, push_entry e db)
    ]
  ]

  -- The `for attempt in range(2)` loop, with the rollback of the counter.
  unfoldable pub write_entry :
      (ℕ → Write) → ChainedAuditEntry → ChainDb → Result ChainedAuditEntry × ChainDb
  write_entry writes e db =
      let (done, db1) = insert_one (writes 0) e db in
      if done
      then (ok e, db1)
      else let (done2, db2) = insert_one (writes 1) e db1 in
        if done2
        then (ok e, db2)
        else (err (write_failed e.sequence), reset_sequence_to e.sequence db2)

  -- Closing the previous epoch: its last entry is marked, and its hash returned.
  unfoldable pub close_epoch : ℕ → ChainDb → Option String × ChainDb
  close_epoch prev_epoch db = elim (get_epoch_boundary_entry rt db prev_epoch true) [
    | none ↦ (none, db)
    | some last_entry ↦ (some last_entry.hash, mark_epoch_end last_entry.sequence db)
  ]

  unfoldable pub make_entry :
      Event → ℕ → ℕ → ℕ → Bool → Option String → Option String → ChainedAuditEntry
  make_entry ev now sequence epoch is_epoch_start previous_hash prev_epoch_hash =
      let entry : ChainedAuditEntry = record {
        sequence = sequence;
        epoch = epoch;
        timestamp = instant now;
        domain = ev.domain;
        action = ev.action;
        actor = ev.actor;
        status = ev.status;
        summary = ev.summary;
        details = ev.details;
        tenant_id = ev.tenant_id;
        previous_hash = previous_hash;
        hash = "";
        is_epoch_start = is_epoch_start;
        is_epoch_end = false;
        previous_epoch_hash = prev_epoch_hash;
      } in
      record entry { hash = compute_entry_hash rt entry previous_hash }

  -- The `try` block up to the insertion: the sequence is taken, at an epoch's start the epoch
  -- before is closed, and the entry is hashed.
  unfoldable pub prepare_entry : ℕ → Event → ChainDb → ChainedAuditEntry × ChainDb
  prepare_entry now ev db =
      let epoch_size = get_epoch_size db in
      let (sequence, db1) = get_next_sequence db in
      let epoch = sequence / epoch_size in
      let starts = is_boundary epoch_size sequence in
      let (prev_epoch_hash, db2) = if starts then close_epoch (epoch - 1) db1 else (none, db1) in
      let previous_hash = get_previous_hash db2 sequence in
      (make_entry ev now sequence epoch starts previous_hash prev_epoch_hash, db2)

  unfoldable pub append_locked : Environment → Event → ChainDb → Result ChainedAuditEntry × ChainDb
  append_locked env ev db =
      let (entry, db2) = prepare_entry env.now ev db in write_entry env.writes entry db2

  unfoldable pub append_chained_entry :
      Environment → Event → ChainDb → Result ChainedAuditEntry × ChainDb
  append_chained_entry env ev db =
      if try_lock env.acquires max_lock_attempts 0
      then append_locked env ev db
      else (err lock_unavailable, db)

  -- The upsert with `$setOnInsert`.
  unfoldable pub upsert_genesis : ChainedAuditEntry → ChainDb → ChainDb
  unfolding push_entry
  upsert_genesis e db = elim (find_sequence 0 db.log) [ some _ ↦ db | none ↦ push_entry e db ]

  unfoldable pub initialize_chain :
      ℕ → String → Option String → String → ℕ → ChainDb → ChainedAuditEntry × ChainDb
  initialize_chain now initialized_by tenant_id details epoch_size db =
      let db0 = save_epoch_size epoch_size db in
      elim (find_sequence 0 db0.log) [
        | some existing ↦ elim (get_latest_chained_entry rt db0) [
          | none ↦ (existing, db0)
          | some max_doc ↦ (existing, reset_sequence_to (max_doc.sequence + 1) db0)
        ]
        | none ↦
            let (sequence, db1) = get_next_sequence db0 in
            let db2 = if sequence == 0 then db1 else reset_sequence_to 0 db1 in
            let entry =
              make_entry (genesis_event initialized_by tenant_id details) now 0 0 true none none in
            let db3 = reset_sequence_to 1 (upsert_genesis entry db2) in
            (value_or entry (get_genesis_entry db3), db3)
      ]
