-- ===== src/Chain/Gapless.antt =====
-- The outcomes of `append_chained_entry` (backend/audit/chain/commands.py).
use sentora.Prelude.{
  Bool-cases, List, Option, String, [], arith, inl, inr, length, length-append, none, refl, some,
  suc, true, ℕ, ◌++◌, ◌∷◌, ◌≡◌, ◌⊎◌,
}
use sentora.Chain.Append.{IsChain, IsPrepared, prepare_entry-IsPrepared, push_entry-IsChain}
use sentora.Chain.Commands.{
  Environment, Event, Write, append_chained_entry, append_locked, insert_one, max_lock_attempts,
  prepare_entry, push_entry, refused, stored, stored_entry, try_lock, unacknowledged, write_entry,
}
use sentora.Chain.Dense.{find_sequence-above, last_hash, last_hash-append}
use sentora.Chain.Entities.{ChainDb, ChainedAuditEntry, err, ok, write_failed}
use sentora.Chain.Repository.{find_sequence, reset_sequence_to}
use sentora.Chain.Runtime.{MongoLaws, Runtime}

pub find_sequence-append :
    (k : ℕ) (log : List ChainedAuditEntry) (e : ChainedAuditEntry)
    → e.sequence ≡ k
    → find_sequence k log ≡ none
    → find_sequence k (log ++ e ∷ []) ≡ some e
unfolding find_sequence
find_sequence-append k [] e h f = ground arith
find_sequence-append k (x ∷ xs) e h f = ground (arith, find_sequence-append k xs e h)

module _ (rt : Runtime) where
  pub prepared_is_new :
      (n : ℕ) (p : Option String) (e : ChainedAuditEntry) (db : ChainDb)
      → IsPrepared rt n p e db
      → find_sequence e.sequence db.log ≡ none
  prepared_is_new n p e db q =
      find_sequence-above rt 0 e.sequence none db.log (omega (arith, q.reserved.size, q.numbered))
        q.reserved.linked

  pub write_entry-cases :
      (writes : ℕ → Write) (n : ℕ) (p : Option String) (e : ChainedAuditEntry) (db : ChainDb)
      → IsPrepared rt n p e db
      → (write_entry rt writes e db ≡ (ok e, push_entry rt e db))
        ⊎ ((write_entry rt writes e db
              ≡ (err (write_failed e.sequence), reset_sequence_to e.sequence db))
            ⊎ ((write_entry rt writes e db ≡ (
              err (write_failed e.sequence),
              reset_sequence_to e.sequence (push_entry rt e db),
            ))
                × ((writes 0 ≡ unacknowledged) ⊎ (writes 1 ≡ unacknowledged))))
  unfolding write_entry insert_one push_entry
  write_entry-cases writes n p e db q = ground (
    arith,
    prepared_is_new n p e db q,
    find_sequence-append e.sequence db.log (stored_entry rt e) refl (prepared_is_new n p e db q),
  )

  -- What a successful append has done.
  pub record Appended (db : ChainDb) (e : ChainedAuditEntry) (db' : ChainDb) : Type 0 where
    pub chain : IsChain rt db'
    pub numbered : e.sequence ≡ length db.log
    pub points : e.previous_hash ≡ last_hash none db.log
    pub grown : length db'.log ≡ suc (length db.log)
    pub tip : last_hash none db'.log ≡ some e.hash

  push_entry-Appended :
      MongoLaws rt
      → (db : ChainDb) (e : ChainedAuditEntry) (db2 : ChainDb)
      → IsPrepared rt (length db.log) (last_hash none db.log) e db2
      → Appended db e (push_entry rt e db2)
  unfolding push_entry
  push_entry-Appended laws db e db2 q = record {
    chain = push_entry-IsChain rt laws _ _ e db2 q;
    numbered = q.numbered;
    points = q.points;
    grown = omega (arith, q.reserved.size, length-append db2.log (stored_entry rt e ∷ []));
    tip = last_hash-append none db2.log (stored_entry rt e ∷ []);
  }

  -- An append that returns an entry has added that entry at the end: it has the next sequence and
  -- points at the entry before it, the log is longer by one, and is again a chain from genesis.
  pub append-ok :
      MongoLaws rt
      → (env : Environment) (ev : Event) (db : ChainDb) (e : ChainedAuditEntry) (db' : ChainDb)
      → IsChain rt db
      → append_chained_entry rt env ev db ≡ (ok e, db')
      → Appended db e db'
  unfolding append_chained_entry append_locked
  append-ok laws env ev db e db' c h =
      elim (Bool-cases (try_lock env.acquires max_lock_attempts 0)) [
        | inr unlocked ↦ ground arith
        | inl locked ↦
            let q = prepare_entry-IsPrepared rt env.now ev db c in
            elim (write_entry-cases env.writes _ _ _ _ q) [
              | inl done ↦
                  let same_e : (prepare_entry rt env.now ev db).0 ≡ e = ground arith in
                  let same_db : push_entry rt (prepare_entry rt env.now ev db).0
                        (prepare_entry rt env.now ev db).1
                      ≡ db' =
                    ground arith in
                  rw (← same_e, ← same_db) (push_entry-Appended laws db _ _ q)
              | inr (inl failed) ↦ ground arith
              | inr (inr (failed, _)) ↦ ground arith
            ]
      ]

  -- What an append that failed has left behind.
  pub record Unchanged (db db' : ChainDb) : Type 0 where
    pub chain : IsChain rt db'
    pub size : length db'.log ≡ length db.log
    pub tip : last_hash none db'.log ≡ last_hash none db.log

  write_entry-stored :
      (writes : ℕ → Write) (n : ℕ) (p : Option String) (e : ChainedAuditEntry) (db : ChainDb)
      → IsPrepared rt n p e db
      → (writes 0 ≡ stored) ⊎ ((writes 0 ≡ refused) × (writes 1 ≡ stored))
      → write_entry rt writes e db ≡ (ok e, push_entry rt e db)
  unfolding write_entry insert_one push_entry
  write_entry-stored writes n p e db q w = ground (arith, w, prepared_is_new n p e db q)

  -- On a chain, when the lock is got and the first write is done, or fails and the second is done, an
  -- append returns the entry that it prepared, and has added it at the end as `append-ok` says.
  pub append-succeeds :
      MongoLaws rt
      → (env : Environment) (ev : Event) (db : ChainDb) → IsChain rt db
      → try_lock env.acquires max_lock_attempts 0 ≡ true
      → (env.writes 0 ≡ stored) ⊎ ((env.writes 0 ≡ refused) × (env.writes 1 ≡ stored))
      → ((append_chained_entry rt env ev db).0 ≡ ok (prepare_entry rt env.now ev db).0)
        × Appended db (prepare_entry rt env.now ev db).0 (append_chained_entry rt env ev db).1
  unfolding append_chained_entry append_locked
  append-succeeds laws env ev db c locked w =
      let q = prepare_entry-IsPrepared rt env.now ev db c in
      rw (locked, write_entry-stored env.writes _ _ _ _ q w)
        (refl, push_entry-Appended laws db _ _ q)
