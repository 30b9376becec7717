-- ===== src/RateLimit/Tests.antt =====
-- Runs of the rate limiter (backend/utils/rate_limit.py), and the witnesses of its properties.
use sentora.Prelude.{
  List, String, [], arith, false, keep, length, refl, some, true, ℕ, ◌∷◌, ◌≡◌, ◌≤◌,
}
use sentora.RateLimit.{Limits, check, is_limited, new_limiter, reset}
use sentora.RateLimit.Bound.{in_window, run-bound}
use sentora.RateLimit.Window.{Call, InOrder, admitted, run, run-spec_run, spec_run}

-- `_login_limiter` of the usage note: five requests a minute; here two in ten seconds.
abbrev two_in_ten : Limits
two_in_ten = record { max_requests = 2; window_seconds = 10 }

abbrev at : ℕ → String → Call
at t address = record { now = t; later = t; ip = address }

abbrev calls : List Call
calls = at 0 "a" ∷ at 3 "a" ∷ at 4 "a" ∷ at 5 "b" ∷ at 10 "a" ∷ at 12 "a" ∷ []

calls-InOrder : InOrder 0 calls
calls-InOrder = (
  omega arith,
  omega arith,
  (
    omega arith,
    omega arith,
    (
      omega arith,
      omega arith,
      (omega arith, omega arith, (omega arith, omega arith, (omega arith, omega arith, tt))),
    ),
  ),
)

third_is_limited :
    run two_in_ten calls new_limiter ≡ (false ∷ false ∷ true ∷ false ∷ false ∷ true ∷ [])
unfolding is_limited
third_is_limited = refl

check_raises :
    (check two_in_ten 4 4 "a" (record { hits = λ ip. 0 ∷ 3 ∷ []; request_count = 2 })).0 ≡ some 10
unfolding check is_limited
check_raises = refl

reset_forgets : (reset (record { hits = λ ip. 0 ∷ []; request_count = 2 })).hits "a" ≡ []
unfolding reset
reset_forgets = refl

run-spec_run_example : run two_in_ten calls new_limiter ≡ spec_run two_in_ten calls (λ ip. [])
run-spec_run_example = run-spec_run two_in_ten 0 calls calls-InOrder

run-bound_example :
    length (keep (in_window 10 3) (admitted "a" calls (run two_in_ten calls new_limiter))) ≤ 2
run-bound_example = run-bound two_in_ten 3 0 calls "a" calls-InOrder
