-- ===== src/Leader/Stability.antt =====
-- Leadership under the operations of the other workers (backend/utils/leader_election.py).
use sentora.Prelude.{
  All, List, Option, String, [], arith, false, none, refl, some, str_eq_iff, true, ℕ, ◌+◌, ◌∷◌, ◌≡◌,
  ◌≢◌, ◌≤◌,
}
use sentora.Leader.{Claim, expire, heartbeat, resign, try_become_leader}

-- What a worker, or the TTL index, does to the claim at a time.
pub data Action : Type 0 where
  tries beats resigns : (ttl_seconds now : ℕ) (worker : String) → Action
  expires : ℕ → Action

abbrev pub apply : Action → Option Claim → Option Claim
apply (tries ttl now worker) c = (try_become_leader ttl now worker c).1
apply (beats ttl now worker) c = heartbeat ttl now worker c
apply (resigns ttl now worker) c = resign worker c
apply (expires now) c = expire now c

abbrev pub run : List Action → Option Claim → Option Claim
run [] c = c
run (a ∷ as') c = run as' (apply a c)

-- The action is another worker's, and comes before the claim expires.
abbrev pub Foreign : Claim → Action → Type 0
Foreign c (tries ttl now worker) = (worker ≢ c.worker_id) × (now ≤ c.expires_at)
Foreign c (beats ttl now worker) = worker ≢ c.worker_id
Foreign c (resigns ttl now worker) = worker ≢ c.worker_id
Foreign c (expires now) = now ≤ c.expires_at

apply-Foreign : (a : Action) (c : Claim) → Foreign c a → apply a (some c) ≡ some c
unfolding try_become_leader heartbeat resign expire
apply-Foreign (tries ttl now worker) c f = ground (arith, str_eq_iff c.worker_id worker)
apply-Foreign (beats ttl now worker) c f = ground (arith, str_eq_iff c.worker_id worker)
apply-Foreign (resigns ttl now worker) c f = ground (arith, str_eq_iff c.worker_id worker)
apply-Foreign (expires now) c f = ground arith

run-Foreign : (as' : List Action) (c : Claim) → All (Foreign c) as' → run as' (some c) ≡ some c
run-Foreign [] c f = refl
run-Foreign (a ∷ as') c f = rw (apply-Foreign a c f.0) (run-Foreign as' c f.1)

granted :
    (ttl now : ℕ) (worker : String) (before : Option Claim) (c : Claim)
    → try_become_leader ttl now worker before ≡ (true, some c)
    → (c.worker_id ≡ worker) × (c.expires_at ≡ now + ttl)
unfolding try_become_leader
granted ttl now worker none c h = (ground arith, ground arith)
granted ttl now worker (some d) c h =
    (ground (arith, str_eq_iff d.worker_id worker), ground (arith, str_eq_iff d.worker_id worker))

-- A worker told that it leads has the claim, and while that has not expired nothing that the others
-- and the TTL index do changes it: an attempt of another worker, after any such actions and no later
-- than the expiry, is told that it does not lead.
pub try_become_leader_stable :
    (ttl now : ℕ) (worker : String) (before : Option Claim) (c : Claim) (as' : List Action)
    (ttl' later : ℕ) (other : String)
    → try_become_leader ttl now worker before ≡ (true, some c)
    → All (Foreign c) as'
    → other ≢ worker
    → later ≤ now + ttl
    → (c.worker_id ≡ worker)
      × (run as' (some c) ≡ some c)
      × (try_become_leader ttl' later other (run as' (some c)) ≡ (false, some c))
try_become_leader_stable ttl now worker before c as' ttl' later other h f ne le =
    let (named, until) = granted ttl now worker before c h in
    (
      named,
      run-Foreign as' c f,
      rw (run-Foreign as' c f)
          (unfold try_become_leader in ground (arith, str_eq_iff c.worker_id other)),
    )
