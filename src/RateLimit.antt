-- ===== src/RateLimit.antt =====
-- The sliding-window rate limiter of backend/utils/rate_limit.py. A clock reading is a number, and
-- `t > now - window` is written `now < t + window`.
use sentora.Prelude.{
  Bool, List, Option, String, [], false, if◌then◌else◌, keep, last?, leb, length, ltb, none, some,
  str_eq, true, ℕ, ◌%◌, ◌++◌, ◌+◌, ◌==◌, ◌∷◌,
}
pub mod Pruning
pub mod Window
pub mod Bound
mod Tests

-- `__init__`'s arguments.
pub record Limits : Type 0 where
  pub max_requests : ℕ
  pub window_seconds : ℕ

-- The mutable fields of a `RateLimiter`. `_hits` is a `defaultdict(list)`: an ip that it does not
-- hold reads as the empty list.
pub record RateLimiter : Type 0 where
  pub hits : String → List ℕ
  pub request_count : ℕ

abbrev pub new_limiter : RateLimiter
new_limiter = record { hits = λ ip. []; request_count = 0 }

abbrev pub set_hits : String → List ℕ → (String → List ℕ) → String → List ℕ
set_hits ip ts hits j = if str_eq j ip then ts else hits j

-- `[t for t in self._hits[ip] if t > cutoff]`
abbrev pub recent : ℕ → ℕ → List ℕ → List ℕ
recent window now ts = keep (λ t. ltb now (t + window)) ts

-- `not hits or hits[-1] <= cutoff`
abbrev pub is_stale : ℕ → ℕ → List ℕ → Bool
is_stale window now ts = elim (last? ts) [ none ↦ true | some t ↦ leb (t + window) now ]

-- `_cleanup`, with its own reading of the clock.
pub cleanup : ℕ → ℕ → (String → List ℕ) → String → List ℕ
cleanup window now hits ip = if is_stale window now (hits ip) then [] else hits ip

-- `is_limited`, whose two readings of the clock are `now` and `later`.
pub is_limited : Limits → ℕ → ℕ → String → RateLimiter → Bool × RateLimiter
unfolding cleanup
is_limited l now later ip s =
    let ts = recent l.window_seconds now (s.hits ip) in
    if leb l.max_requests (length ts)
    then (true, record s { hits = set_hits ip ts s.hits })
    else let hits' = set_hits ip (ts ++ (now ∷ [])) s.hits in
      let count' = s.request_count + 1 in
      (
        false,
        record {
          hits = if count' % 200 == 0 then cleanup l.window_seconds later hits' else hits';
          request_count = count';
        },
      )

-- `check`: `none` is the return, `some` the `Retry-After` of the 429 that it raises.
pub check : Limits → ℕ → ℕ → String → RateLimiter → Option ℕ × RateLimiter
check l now later ip s =
    let (limited, s') = is_limited l now later ip s in
    ((if limited then some l.window_seconds else none), s')

pub reset : RateLimiter → RateLimiter
reset s = record s { hits = λ ip. [] }
