-- ===== src/Lock.antt =====
-- The advisory lock of backend/utils/distributed_lock.py. Time is a number; a collection holds at
-- most one document for a lock name.
pub mod Exclusion
mod Tests
use sentora.Prelude.{
  Bool, Option, String, false, if◌then◌else◌, ltb, none, some, str_eq, true, ℕ, ◌+◌,
}

-- A document of `distributed_locks`.
pub record LockDoc : Type 0 where
  pub owner_id : String
  pub acquired_at : ℕ
  pub expires_at : ℕ

-- The fields of a `DistributedLock` object that change; its owner id and its name do not.
pub record Lock : Type 0 where
  pub ttl_seconds : ℕ
  pub acquired : Bool
  pub lost : Bool

abbrev pub new_lock : ℕ → Lock
new_lock ttl = record { ttl_seconds = ttl; acquired = false; lost = false }

abbrev pub claim : ℕ → String → Lock → LockDoc
claim now owner lock = record {
  owner_id = owner;
  acquired_at = now;
  expires_at = now + lock.ttl_seconds;
}

-- The insertion of `acquire`; on a document that is there it is a DuplicateKeyError.
pub insert_claim : ℕ → String → Lock → Option LockDoc → Bool × Lock × Option LockDoc
insert_claim now owner lock none =
    (true, record lock { acquired = true }, some (claim now owner lock))
insert_claim now owner lock (some doc) = (false, lock, some doc)

-- The update of an expired document. It moves `expires_at` past `now`, so what it matches it also
-- modifies.
pub take_over : ℕ → String → Lock → Option LockDoc → Bool × Lock × Option LockDoc
take_over now owner lock none = (false, lock, none)
take_over now owner lock (some doc) =
    if ltb doc.expires_at now
    then (true, record lock { acquired = true }, some (claim now owner lock))
    else (false, lock, some doc)

-- `acquire`, when nothing comes between its two calls.
pub acquire : ℕ → String → Lock → Option LockDoc → Bool × Lock × Option LockDoc
unfolding insert_claim take_over
acquire now owner lock doc =
    let (done, lock', doc') = insert_claim now owner lock doc in
    if done then (true, lock', doc') else take_over now owner lock' doc'

-- `delete_one({"_id": …, "owner_id": …})`
pub delete_owned : String → Option LockDoc → Option LockDoc
delete_owned owner none = none
delete_owned owner (some doc) = if str_eq doc.owner_id owner then none else some doc

pub release : String → Lock → Option LockDoc → Lock × Option LockDoc
unfolding delete_owned
release owner lock doc =
    if lock.acquired
    then (record lock { acquired = false }, delete_owned owner doc)
    else (lock, doc)

-- One round of `_heartbeat`: the document is refreshed, or the lock is found lost.
pub heartbeat : ℕ → String → Lock → Option LockDoc → Lock × Option LockDoc
heartbeat now owner lock none = (record lock { acquired = false; lost = true }, none)
heartbeat now owner lock (some doc) =
    if str_eq doc.owner_id owner
    then (lock, some (record doc { expires_at = now + lock.ttl_seconds }))
    else (record lock { acquired = false; lost = true }, some doc)

-- The TTL index removes a document some time after it has expired.
pub expire : ℕ → Option LockDoc → Option LockDoc
expire now none = none
expire now (some doc) = if ltb doc.expires_at now then none else some doc
