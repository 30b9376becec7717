-- ===== src/Chain/Append.antt =====
-- Appending to the chain (backend/audit/chain/commands.py) keeps it linked and gapless.
use sentora.Prelude.{
  if◌then◌else◌, ℕ, zero, suc, ◌-◌, String, ◌≡◌, refl, ap, sym, ◌∙◌, Bool, true, false, Option,
  none, some, List, [], ◌∷◌, arith, ◌==◌, Option-cases, inl, inr, length, length-append,
}
use sentora.Chain.Entities.{Timestamp, instant, iso_text, ChainedAuditEntry, ChainDb}
use sentora.Chain.Runtime.{Runtime, MongoLaws}
use sentora.Chain.Hasher.{
  compute_entry_hash, build_hashable, normalize_timestamp, normalize_datetime,
}
use sentora.Chain.Repository.{
  get_next_sequence, find_sequence, get_previous_hash, get_epoch_boundary_entry, mark_epoch_end,
  hash_of,
}
use sentora.Chain.Commands.{
  Event, stored_entry, stored_timestamp, push_entry, close_epoch, make_entry, prepare_entry,
}
use sentora.Chain.Linked.{Linked}
use sentora.Chain.Dense.{
  last_hash, Linked-append, find_sequence-Linked, Linked-set_epoch_end, length-set_epoch_end,
  last_hash-set_epoch_end,
}

-- The next sequence to allocate is the number of entries, and the entries are linked from genesis.
pub record IsChain (rt : Runtime) (db : ChainDb) : Type 0 where
  pub counter : db.sequence_counter ≡ some (length db.log)
  pub linked : Linked rt 0 none db.log

-- The state between the allocation of sequence `n` and the insertion of its entry.
pub record IsReserved (rt : Runtime) (n : ℕ) (p : Option String) (db : ChainDb) : Type 0 where
  pub counter : db.sequence_counter ≡ some (suc n)
  pub size : length db.log ≡ n
  pub linked : Linked rt 0 none db.log
  pub tip : last_hash none db.log ≡ p

module _ (rt : Runtime) where
  get_next_sequence-IsReserved :
      (db : ChainDb)
      → IsChain rt db
      → ((get_next_sequence db).0 ≡ length db.log)
        × IsReserved rt (length db.log) (last_hash none db.log) (get_next_sequence db).1
  unfolding get_next_sequence
  get_next_sequence-IsReserved db c = (
    ground (arith, c.counter),
    record { counter = ground (arith, c.counter); size = refl; linked = c.linked; tip = refl },
  )

  close_epoch-IsReserved :
      (n e : ℕ) (p : Option String) (db : ChainDb)
      → IsReserved rt n p db
      → IsReserved rt n p (close_epoch rt e db).1
  unfolding close_epoch mark_epoch_end
  close_epoch-IsReserved n e p db r = elim (Option-cases (get_epoch_boundary_entry rt db e true)) [
    | inl absent ↦ rw (absent, close_epoch) r
    | inr (last, found) ↦
        rw (found, close_epoch)
          (record {
            counter = r.counter;
            size = length-set_epoch_end last.sequence db.log ∙ r.size;
            linked = Linked-set_epoch_end rt last.sequence 0 none db.log r.linked;
            tip = last_hash-set_epoch_end last.sequence none db.log ∙ r.tip;
          })
  ]

  hash_before :
      (n : ℕ) (log : List ChainedAuditEntry)
      → length log ≡ n
      → Linked rt 0 none log
      → (if n == 0 then none else hash_of (find_sequence (n - 1) log)) ≡ last_hash none log
  hash_before zero [] h l = ground arith
  hash_before zero (e ∷ es) h l = absurd (omega arith)
  hash_before (suc n) log h l =
      ground (arith, find_sequence-Linked rt 0 n none log (omega arith) (omega arith) l)

  get_previous_hash-IsReserved :
      (n : ℕ) (p : Option String) (db : ChainDb) → IsReserved rt n p db → get_previous_hash db n ≡ p
  unfolding get_previous_hash
  get_previous_hash-IsReserved n p db r = hash_before n db.log r.size r.linked ∙ r.tip

  normalize-stored :
      MongoLaws rt
      → (ts : Timestamp)
      → normalize_timestamp rt (stored_timestamp rt ts) ≡ normalize_timestamp rt ts
  unfolding normalize_timestamp normalize_datetime
  normalize-stored laws (instant t) = rw laws.keeps_millis
  normalize-stored laws (iso_text s) = refl

  -- A datetime read back has the hash that it was stored with.
  pub compute_entry_hash-stored :
      MongoLaws rt
      → (e : ChainedAuditEntry) (p : Option String)
      → compute_entry_hash rt (stored_entry rt e) p ≡ compute_entry_hash rt e p
  unfolding compute_entry_hash build_hashable
  compute_entry_hash-stored laws e p = cc (normalize-stored laws e.timestamp)

  -- What is prepared for insertion: an entry with the next sequence, sealed, at the tip of the chain.
  pub record IsPrepared (n : ℕ) (p : Option String) (e : ChainedAuditEntry) (db : ChainDb)
      : Type 0 where
    pub reserved : IsReserved rt n p db
    pub numbered : e.sequence ≡ n
    pub points : e.previous_hash ≡ p
    pub sealed : compute_entry_hash rt e e.previous_hash ≡ e.hash

  closed_if :
      (b : Bool) (n e : ℕ) (p : Option String) (db : ChainDb)
      → IsReserved rt n p db
      → IsReserved rt n p (if b then close_epoch rt e db else (none, db)).1
  closed_if true n e p db r = close_epoch-IsReserved n e p db r
  closed_if false n e p db r = r

  pub prepare_entry-IsPrepared :
      (now : ℕ) (ev : Event) (db : ChainDb)
      → IsChain rt db
      → IsPrepared
          (length db.log)
          (last_hash none db.log)
          (prepare_entry rt now ev db).0
          (prepare_entry rt now ev db).1
  unfolding prepare_entry make_entry compute_entry_hash build_hashable
  prepare_entry-IsPrepared now ev db c =
      let (eq, r) = get_next_sequence-IsReserved db c in
      let closed = closed_if _ _ _ _ _ r in
      record {
        reserved = closed;
        numbered = eq;
        points = ap (get_previous_hash _) eq ∙ get_previous_hash-IsReserved _ _ _ closed;
        sealed = refl;
      }

  pub push_entry-IsChain :
      MongoLaws rt
      → (n : ℕ) (p : Option String) (e : ChainedAuditEntry) (db : ChainDb) → IsPrepared n p e db
      → IsChain rt (push_entry rt e db)
  unfolding push_entry
  push_entry-IsChain laws n p e db q = record {
    counter =
        q.reserved.counter
        ∙ ap some (omega (arith, q.reserved.size, length-append db.log (stored_entry rt e ∷ [])));
    linked =
        Linked-append rt 0 n none db.log (stored_entry rt e ∷ []) (omega (arith, q.reserved.size))
          q.reserved.linked
          (
            q.numbered,
            q.points ∙ sym q.reserved.tip,
            compute_entry_hash-stored laws e _ ∙ q.sealed,
            tt,
          );
  }
