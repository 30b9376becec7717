-- ===== src/Lock/Tests.antt =====
-- Runs of the lock (backend/utils/distributed_lock.py), and the witness of its property.
use sentora.Prelude.{String, arith, false, refl, true, ℕ, ◌≡◌}
use sentora.Lock.{acquire, insert_claim, new_lock, take_over}
use sentora.Lock.Exclusion.{
  Reach, World, here, idle, insert_step, inserts, mutual_exclusion, next, take_over_step,
  takes_over,
}

abbrev ttl : String → ℕ
ttl o = 300

-- One owner inserts the document; another finds it, and finds it not expired.
abbrev held : World
held = insert_step (idle ttl 100) "a" 100

abbrev contended : World
contended = take_over_step (insert_step held "b" 100) "b" 100

contended-Reach : Reach (idle ttl 100) contended
contended-Reach =
    next
      (next (next here (inserts (idle ttl 100) "a" 100 (omega arith)))
        (inserts held "b" 100 (omega arith)))
      (takes_over (insert_step held "b" 100) "b" 100 (omega arith))

only_first : ((contended.locks "a").acquired ≡ true) × ((contended.locks "b").acquired ≡ false)
unfolding insert_claim take_over
only_first = (refl, refl)

expired_is_taken : (acquire 500 "b" (new_lock 300) held.doc).0 ≡ true
unfolding acquire insert_claim
expired_is_taken = refl

abbrev first : String
first = "a"

mutual_exclusion_example : first ≡ first
unfolding insert_claim take_over
mutual_exclusion_example =
    mutual_exclusion ttl 100 contended first first contended-Reach refl refl (omega arith)
      (omega arith)
