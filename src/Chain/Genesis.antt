-- ===== src/Chain/Genesis.antt =====
-- `initialize_chain` (backend/audit/chain/commands.py) over a log without a genesis entry: a new
-- one, or one whose oldest entries the TTL index on `timestamp` (backend/db_indexes.py) has removed.
use sentora.Prelude.{
  ℕ, ◌≡◌, ◌≢◌, refl, ap, ◌∙◌, String, true, Option, none, some, List, [], ◌∷◌, ◌++◌, arith, length,
}
use sentora.Chain.Entities.{ChainedAuditEntry, ChainDb}
use sentora.Chain.Runtime.{Runtime, MongoLaws}
use sentora.Chain.Hasher.{compute_entry_hash, build_hashable}
use sentora.Chain.Repository.{find_sequence, reset_sequence_to, save_epoch_size, get_next_sequence}
use sentora.Chain.Commands.{
  make_entry, genesis_event, stored_entry, upsert_genesis, initialize_chain,
}
use sentora.Chain.Append.{IsChain, compute_entry_hash-stored}
use sentora.Chain.Stuck.{IsStuck}

find_sequence-push :
    (n : ℕ) (log : List ChainedAuditEntry) (e : ChainedAuditEntry)
    → find_sequence n log ≢ none
    → find_sequence n (log ++ e ∷ []) ≢ none
unfolding find_sequence
find_sequence-push n [] e h = absurd (h refl)
find_sequence-push n (x ∷ xs) e h = ground (arith, find_sequence-push n xs e)

module _ (rt : Runtime) (now : ℕ) (by : String) (tenant_id : Option String) (details : String)
    (epoch_size : ℕ) (db : ChainDb) where
  abbrev pub genesis : ChainedAuditEntry
  genesis = make_entry rt (genesis_event by tenant_id details) now 0 0 true none none

  -- Without an entry 0 the new genesis is written behind what is there, and the counter is set to 1,
  -- whatever it was and whatever sequences the log still holds.
  initialize_chain-writes :
      find_sequence 0 db.log ≡ none
      → ((initialize_chain rt now by tenant_id details epoch_size db).1.log
          ≡ db.log ++ stored_entry rt genesis ∷ [])
        × ((initialize_chain rt now by tenant_id details epoch_size db).1.sequence_counter ≡ some 1)
  unfolding initialize_chain save_epoch_size reset_sequence_to get_next_sequence upsert_genesis
  initialize_chain-writes absent = ground (arith, absent)

  -- Initialising an empty log makes a chain of one entry, the genesis.
  pub initialize_chain-empty :
      MongoLaws rt
      → db.log ≡ []
      → IsChain rt (initialize_chain rt now by tenant_id details epoch_size db).1
        × ((initialize_chain rt now by tenant_id details epoch_size db).1.log
            ≡ stored_entry rt genesis ∷ [])
  unfolding make_entry compute_entry_hash build_hashable find_sequence
  initialize_chain-empty laws empty =
      let (log, counter) = initialize_chain-writes (rw empty refl) in
      let only : (initialize_chain rt now by tenant_id details epoch_size db).1.log
          ≡ stored_entry rt genesis ∷ [] =
        log ∙ ap (λ es. es ++ stored_entry rt genesis ∷ []) empty in
      (
        record {
          counter = counter ∙ ap some (omega (arith, ap length only));
          linked = rw only (refl, refl, compute_entry_hash-stored rt laws genesis none, tt);
        },
        only,
      )

  -- When the genesis entry has expired and entry 1 has not, initialising leaves the counter at a
  -- sequence that is taken.
  pub initialize_chain-expired :
      find_sequence 0 db.log ≡ none
      → find_sequence 1 db.log ≢ none
      → IsStuck (initialize_chain rt now by tenant_id details epoch_size db).1
  initialize_chain-expired absent there =
      let (log, counter) = initialize_chain-writes absent in
      record {
        next = 1;
        counter = counter;
        taken = rw log (find_sequence-push 1 db.log (stored_entry rt genesis) there);
      }
