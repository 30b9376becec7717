-- ===== src/Leader/Tests.antt =====
-- Runs of the leader election (backend/utils/leader_election.py).
use sentora.Prelude.{refl, some, true, ◌≡◌}
use sentora.Leader.{Claim, fresh_claim, try_become_leader}

abbrev held : Claim
held = fresh_claim 30 100 "worker-a"

-- After the expiry another worker takes the claim over.
takes_over :
    try_become_leader 30 131 "worker-b" (some held) ≡ (true, some (fresh_claim 30 131 "worker-b"))
unfolding try_become_leader
takes_over = refl
