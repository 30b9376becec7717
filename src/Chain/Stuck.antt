-- ===== src/Chain/Stuck.antt =====
-- A lost acknowledgement in `append_chained_entry` (backend/audit/chain/commands.py) and its
-- consequences, and the repair of the counter by `initialize_chain`.
use sentora.Prelude.{
  Bool, Bool-cases, List, Option, Option-cases, String, [], ap, arith, false, if◌then◌else◌, inl,
  inr, last?, length, length-append, none, refl, some, suc, true, ℕ, ◌+◌, ◌∙◌, ◌∷◌, ◌≡◌, ◌≢◌, ◌⊎◌,
}
use sentora.Chain.Append.{IsChain, IsPrepared, prepare_entry-IsPrepared}
use sentora.Chain.Commands.{
  Environment, Event, Write, append_chained_entry, append_locked, close_epoch, initialize_chain,
  insert_one, make_entry, max_lock_attempts, prepare_entry, push_entry, stored_entry, try_lock,
  unacknowledged, write_entry,
}
use sentora.Chain.Dense.{Linked-Ascending, last-Linked}
use sentora.Chain.Entities.{ChainDb, ChainedAuditEntry, err, lock_unavailable, write_failed}
use sentora.Chain.Gapless.{find_sequence-append, prepared_is_new}
use sentora.Chain.Linked.{Linked}
use sentora.Chain.Repository.{
  find_sequence, get_epoch_boundary_entry, get_latest_chained_entry, get_next_sequence,
  mark_epoch_end, reset_sequence_to, save_epoch_size, set_epoch_end,
}
use sentora.Chain.Runtime.{MongoLaws, Runtime}

-- The counter hands out a sequence that the log holds already.
pub record IsStuck (db : ChainDb) : Type 0 where
  pub next : ℕ
  pub counter : db.sequence_counter ≡ some next
  pub taken : find_sequence next db.log ≢ none

find_sequence-set_epoch_end :
    (n k : ℕ) (log : List ChainedAuditEntry)
    → find_sequence n log ≢ none
    → find_sequence n (set_epoch_end k log) ≢ none
unfolding find_sequence set_epoch_end
find_sequence-set_epoch_end n k [] h = h
find_sequence-set_epoch_end n k (e ∷ es) h = ground (arith, find_sequence-set_epoch_end n k es)

module _ (rt : Runtime) where
  record IsTaken (n : ℕ) (db : ChainDb) : Type 0 where
    counter : db.sequence_counter ≡ some (suc n)
    taken : find_sequence n db.log ≢ none

  close_epoch-IsTaken :
      (b : Bool) (n e : ℕ) (db : ChainDb)
      → IsTaken n db
      → IsTaken n (if b then close_epoch rt e db else (none, db)).1
  unfolding close_epoch mark_epoch_end
  close_epoch-IsTaken false n e db t = t
  close_epoch-IsTaken true n e db t = elim (Option-cases (get_epoch_boundary_entry rt db e true)) [
    | inl absent ↦ rw (absent, close_epoch) t
    | inr (last, found) ↦
        rw (found, close_epoch)
          (record {
            counter = t.counter;
            taken = find_sequence-set_epoch_end n last.sequence db.log t.taken;
          })
  ]

  prepare_entry-IsTaken :
      (now n : ℕ) (ev : Event) (db : ChainDb)
      → db.sequence_counter ≡ some n
      → find_sequence n db.log ≢ none
      → ((prepare_entry rt now ev db).0.sequence ≡ n) × IsTaken n (prepare_entry rt now ev db).1
  unfolding prepare_entry make_entry get_next_sequence
  prepare_entry-IsTaken now n ev db c t =
      (ground arith, close_epoch-IsTaken _ n _ _ (record { counter = ground arith; taken = t }))

  write_entry-taken :
      (writes : ℕ → Write) (e : ChainedAuditEntry) (db : ChainDb)
      → find_sequence e.sequence db.log ≢ none
      → write_entry rt writes e db
        ≡ (err (write_failed e.sequence), reset_sequence_to e.sequence db)
  unfolding write_entry insert_one
  write_entry-taken writes e db t = elim (Option-cases (find_sequence e.sequence db.log)) [
    | inl free ↦ absurd (t free)
    | inr (x, found) ↦ ground arith
  ]

  -- While the counter points at a sequence that is taken, no append succeeds, whatever the lock and
  -- the writes do, and each fails for the lock or for the write, and the counter goes on pointing there.
  pub append-IsStuck :
      (env : Environment) (ev : Event) (db : ChainDb) (s : IsStuck db)
      → (((append_chained_entry rt env ev db).0 ≡ err lock_unavailable)
          ⊎ ((append_chained_entry rt env ev db).0 ≡ err (write_failed s.next)))
        × IsStuck (append_chained_entry rt env ev db).1
  unfolding append_chained_entry append_locked reset_sequence_to
  append-IsStuck env ev db s = elim (Bool-cases (try_lock env.acquires max_lock_attempts 0)) [
    | inr unlocked ↦ rw unlocked (inl refl, s)
    | inl locked ↦
        let (same, t) = prepare_entry-IsTaken env.now s.next ev db s.counter s.taken in
        let clash : find_sequence (prepare_entry rt env.now ev db).0.sequence
              (prepare_entry rt env.now ev db).1.log
            ≢ none =
          rw same t.taken in
        rw
          (
            locked,
            write_entry-taken env.writes (prepare_entry rt env.now ev db).0
                (prepare_entry rt env.now ev db).1 clash,
          )
          (
            inr (ap (λ n. err (write_failed n)) same),
            record { next = _; counter = refl; taken = clash },
          )
  ]

  write_entry-lost :
      (writes : ℕ → Write) (n : ℕ) (p : Option String) (e : ChainedAuditEntry) (db : ChainDb)
      → IsPrepared rt n p e db
      → writes 0 ≡ unacknowledged
      → (write_entry rt writes e db
          ≡ (err (write_failed e.sequence), reset_sequence_to e.sequence (push_entry rt e db)))
        × (find_sequence e.sequence (push_entry rt e db).log ≢ none)
  unfolding write_entry insert_one push_entry
  write_entry-lost writes n p e db q lost =
      let new = prepared_is_new rt n p e db q in
      let dup = find_sequence-append e.sequence db.log (stored_entry rt e) refl new in
      (ground (arith, new, dup), λ h. cc (h, dup))

  -- If the first write is done but not acknowledged, the retry meets the unique index, the append
  -- reports failure though its entry is in the log, and the rolled-back counter is stuck.
  pub append-unacknowledged :
      (env : Environment) (ev : Event) (db : ChainDb)
      → IsChain rt db
      → try_lock env.acquires max_lock_attempts 0 ≡ true
      → env.writes 0 ≡ unacknowledged
      → ((append_chained_entry rt env ev db).0 ≡ err (write_failed (length db.log)))
        × (length (append_chained_entry rt env ev db).1.log ≡ suc (length db.log))
        × IsStuck (append_chained_entry rt env ev db).1
  unfolding append_chained_entry append_locked
  append-unacknowledged env ev db c locked lost =
      let q = prepare_entry-IsPrepared rt env.now ev db c in
      let (failed, clash) = write_entry-lost env.writes _ _ _ _ q lost in
      rw (locked, failed)
        (
          ap (λ n. err (write_failed n)) q.numbered,
          (unfold push_entry reset_sequence_to in
              omega (
                arith,
                q.reserved.size,
                length-append (prepare_entry rt env.now ev db).1.log
                    (stored_entry rt (prepare_entry rt env.now ev db).0 ∷ []),
              )),
          (unfold reset_sequence_to in record { next = _; counter = refl; taken = clash }),
        )

  -- Initialising again over a linked log sets the counter to the first free sequence, whatever it
  -- was, and changes no entry: the log is a chain again.
  pub initialize_chain-IsChain :
      MongoLaws rt
      → (now : ℕ) (by : String) (tenant_id : Option String) (details : String) (epoch_size : ℕ)
        (db : ChainDb) (e : ChainedAuditEntry) (es : List ChainedAuditEntry)
      → db.log ≡ e ∷ es
      → Linked rt 0 none db.log
      → IsChain rt (initialize_chain rt now by tenant_id details epoch_size db).1
        × ((initialize_chain rt now by tenant_id details epoch_size db).1.log ≡ db.log)
        × ((initialize_chain rt now by tenant_id details epoch_size db).0 ≡ e)
  unfolding initialize_chain save_epoch_size reset_sequence_to get_latest_chained_entry
      find_sequence
  initialize_chain-IsChain laws now by tenant_id details epoch_size db e es h l =
      let l' : Linked rt 0 none (e ∷ es) = rw h at l in
      let (f, last, count) = last-Linked rt 0 none e es l' in
      let sorted : rt.sort db.log ≡ e ∷ es =
        laws.sort_sorted _ (Linked-Ascending rt 0 none _ l) ∙ h in
      let found : find_sequence 0 db.log ≡ some e = rw h (ground (arith, l'.0)) in
      let latest : last? (rt.sort db.log) ≡ some f = rw sorted last in
      let result : initialize_chain rt now by tenant_id details epoch_size db ≡ (
        e,
        record db { chain_config = some epoch_size; sequence_counter = some (f.sequence + 1) },
      ) =
        ground (arith, found, latest) in
      rw result
        (record { counter = ap some (omega (arith, count, ap length h)); linked = l }, refl, refl)
