-- ===== src/Leader.antt =====
-- Leader election, backend/utils/leader_election.py. Time is a number; a collection holds at most one
-- claim for an election name.
use sentora.Prelude.{
  Bool, Option, String, false, if◌then◌else◌, ltb, none, some, str_eq, true, ℕ, ◌+◌,
}
pub mod Stability
mod Tests

-- A document of `leader_election`.
pub record Claim : Type 0 where
  pub worker_id : String
  pub acquired_at : ℕ
  pub expires_at : ℕ

abbrev pub fresh_claim : ℕ → ℕ → String → Claim
fresh_claim ttl_seconds now worker = record {
  worker_id = worker;
  acquired_at = now;
  expires_at = now + ttl_seconds;
}

-- `update_one({"_id": …, "worker_id": …}, {"$set": {"expires_at": …}})`, on the claim found.
abbrev pub refresh : ℕ → ℕ → Claim → Claim
refresh ttl_seconds now c = record c { expires_at = now + ttl_seconds }

-- `try_become_leader`: insert, else refresh one's own claim, else take over an expired one.
pub try_become_leader : ℕ → ℕ → String → Option Claim → Bool × Option Claim
try_become_leader ttl_seconds now worker none = (true, some (fresh_claim ttl_seconds now worker))
try_become_leader ttl_seconds now worker (some c) =
    if str_eq c.worker_id worker
    then (true, some (refresh ttl_seconds now c))
    else if ltb c.expires_at now
    then (true, some (fresh_claim ttl_seconds now worker))
    else (false, some c)

pub heartbeat : ℕ → ℕ → String → Option Claim → Option Claim
heartbeat ttl_seconds now worker none = none
heartbeat ttl_seconds now worker (some c) =
    if str_eq c.worker_id worker then some (refresh ttl_seconds now c) else some c

pub resign : String → Option Claim → Option Claim
resign worker none = none
resign worker (some c) = if str_eq c.worker_id worker then none else some c

-- The TTL index of backend/db_indexes.py removes a claim some time after it has expired.
pub expire : ℕ → Option Claim → Option Claim
expire now none = none
expire now (some c) = if ltb c.expires_at now then none else some c
