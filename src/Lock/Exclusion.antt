-- ===== src/Lock/Exclusion.antt =====
-- Mutual exclusion of the lock of backend/utils/distributed_lock.py, over every interleaving of the
-- objects that contend for one name.
use sentora.Prelude.{
  Option, Option-cases, String, arith, if◌then◌else◌, inl, inr, none, some, str_eq, str_eq_iff,
  true, ℕ, ◌+◌, ◌≡◌, ◌≤◌,
}
use sentora.Lock.{
  Lock, LockDoc, delete_owned, expire, heartbeat, insert_claim, new_lock, release, take_over,
}

-- All the objects, by owner id, with the database and the time. `lease` is the expiry that an owner
-- wrote last; the program does not keep it.
pub record World : Type 0 where
  pub now : ℕ
  pub doc : Option LockDoc
  pub locks : String → Lock
  pub lease : String → ℕ

abbrev pub update {ℓ} : {A : Type ℓ} → (String → A) → String → A → String → A
update f k v j = if str_eq j k then v else f j

abbrev pub leased : Option LockDoc → String → (String → ℕ) → String → ℕ
leased none owner lease = lease
leased (some d) owner lease =
    if str_eq d.owner_id owner then update lease owner d.expires_at else lease

abbrev pub insert_step : World → String → ℕ → World
insert_step w o t =
    let (done, lock, doc) = insert_claim t o (w.locks o) w.doc in
    record w {
      doc = doc;
      locks = update w.locks o lock;
      lease = if done then leased doc o w.lease else w.lease;
    }

abbrev pub take_over_step : World → String → ℕ → World
take_over_step w o t =
    let (done, lock, doc) = take_over t o (w.locks o) w.doc in
    record w {
      doc = doc;
      locks = update w.locks o lock;
      lease = if done then leased doc o w.lease else w.lease;
    }

abbrev pub release_step : World → String → World
release_step w o =
    let (lock, doc) = release o (w.locks o) w.doc in
    record w { doc = doc; locks = update w.locks o lock }

abbrev pub heartbeat_step : World → String → ℕ → World
heartbeat_step w o t =
    let (lock, doc) = heartbeat t o (w.locks o) w.doc in
    record w { doc = doc; locks = update w.locks o lock; lease = leased doc o w.lease }

-- One call of the database, with the assignments after it, is a step; the time `t` that a call writes
-- may have been read before. A heartbeat runs only while its object holds the lock: release cancels it, and a loss ends it.
pub data Step : World → World → Type 0 where
  wait : (w : World) (d : ℕ) → Step w (record w { now = w.now + d })
  inserts : (w : World) (o : String) (t : ℕ) → t ≤ w.now → Step w (insert_step w o t)
  takes_over : (w : World) (o : String) (t : ℕ) → t ≤ w.now → Step w (take_over_step w o t)
  gives : (w : World) (o : String) → Step w (release_step w o)
  beats :
      (w : World) (o : String) (t : ℕ)
      → t ≤ w.now
      → (w.locks o).acquired ≡ true
      → Step w (heartbeat_step w o t)
  expires : (w : World) → Step w (record w { doc = expire w.now w.doc })

pub data Reach (w : World) : World → Type 0 where
  here : Reach w w
  next : {v u : World} → Reach w v → Step v u → Reach w u

abbrev pub Names : Option LockDoc → String → ℕ → Type 0
Names none o n = ⊥
Names (some d) o n = (d.owner_id ≡ o) × (d.expires_at ≡ n)

-- An object that holds the lock, and whose lease has not run out, is the one in the document.
pub record IsExclusive (w : World) : Type 0 where
  pub named :
      (o : String) → (w.locks o).acquired ≡ true → w.now ≤ w.lease o → Names w.doc o (w.lease o)

module _ (w : World) (o : String) (h : IsExclusive w) where
  inserts-IsExclusive : (t : ℕ) → t ≤ w.now → IsExclusive (insert_step w o t)
  unfolding insert_claim
  inserts-IsExclusive t le = record {
    named = λ j a q. ground (arith, h.named j, str_eq_iff j o, str_eq_iff o o);
  }

  takes_over-IsExclusive : (t : ℕ) → t ≤ w.now → IsExclusive (take_over_step w o t)
  unfolding take_over
  takes_over-IsExclusive t le = record {
    named = λ j a q. ground (arith, h.named j, str_eq_iff j o, str_eq_iff o o);
  }

  gives-IsExclusive : IsExclusive (release_step w o)
  unfolding release delete_owned
  gives-IsExclusive = record {
    named = λ j a t. ground (arith, h.named j, str_eq_iff j o, str_eq_iff o o);
  }

  beats-IsExclusive :
      (t : ℕ) → t ≤ w.now → (w.locks o).acquired ≡ true → IsExclusive (heartbeat_step w o t)
  unfolding heartbeat
  beats-IsExclusive t le held = record {
    named = λ j a q. elim (Option-cases w.doc) [
      | inl e ↦ ground (arith, e, h.named j, h.named o held, str_eq_iff j o, str_eq_iff o o)
      | inr (d, e) ↦ ground (
        arith,
        e,
        h.named j,
        h.named o held,
        str_eq_iff j o,
        str_eq_iff o o,
        str_eq_iff d.owner_id o,
      )
    ];
  }

expires-IsExclusive :
    (w : World) → IsExclusive w → IsExclusive (record w { doc = expire w.now w.doc })
unfolding expire
expires-IsExclusive w h = record { named = λ j a t. ground (arith, h.named j) }

Step-IsExclusive : {v u : World} → Step v u → IsExclusive v → IsExclusive u
Step-IsExclusive (wait w d) h = record { named = λ o a t. h.named o a (omega arith) }
Step-IsExclusive (inserts w o t le) h = inserts-IsExclusive w o h t le
Step-IsExclusive (takes_over w o t le) h = takes_over-IsExclusive w o h t le
Step-IsExclusive (gives w o) h = gives-IsExclusive w o h
Step-IsExclusive (beats w o t le held) h = beats-IsExclusive w o h t le held
Step-IsExclusive (expires w) h = expires-IsExclusive w h

pub Reach-IsExclusive : {w v : World} → IsExclusive w → Reach w v → IsExclusive v
Reach-IsExclusive h here = h
Reach-IsExclusive h (next r s) = Step-IsExclusive s (Reach-IsExclusive h r)

Names-unique :
    (doc : Option LockDoc) (a b : String) (m n : ℕ) → Names doc a m → Names doc b n → a ≡ b
Names-unique none a b m n h k = absurd h
Names-unique (some d) a b m n h k = cc

-- Nobody holds the lock.
abbrev pub idle : (String → ℕ) → ℕ → World
idle ttl now = record { now = now; doc = none; locks = λ o. new_lock (ttl o); lease = λ o. 0 }

-- In every world that is reached from an idle one, by acquisitions, releases, heartbeats and
-- expirations in any order and with any waiting, two objects that both take themselves to hold the
-- lock, with leases that have not run out, are one.
pub mutual_exclusion :
    (ttl : String → ℕ) (now : ℕ) (w : World) (a b : String)
    → Reach (idle ttl now) w
    → (w.locks a).acquired ≡ true
    → (w.locks b).acquired ≡ true
    → w.now ≤ w.lease a
    → w.now ≤ w.lease b
    → a ≡ b
mutual_exclusion ttl now w a b r ha hb ta tb =
    let inv = Reach-IsExclusive (record { named = λ o h t. cc h }) r in
    Names-unique w.doc a b _ _ (inv.named a ha ta) (inv.named b hb tb)
