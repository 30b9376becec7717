-- ===== src/RateLimit/Window.antt =====
-- What the limiter of backend/utils/rate_limit.py promises over a history of calls, against a log
-- that forgets nothing.
use sentora.Prelude.{
  All, All-keep, All-snoc, Bool, Bool-cases, List, String, [], arith, false, if◌then◌else◌, inl,
  inr, keep, keep-append, leb, length, ltb, not, refl, str_eq, str_eq_iff, subst, sym, true, ℕ, ◌%◌,
  ◌&&◌, ◌++◌, ◌+◌, ◌==◌, ◌∙◌, ◌∷◌, ◌≡◌, ◌≤◌,
}
use sentora.RateLimit.{
  Limits, RateLimiter, cleanup, is_limited, is_stale, new_limiter, recent, set_hits,
}
use sentora.RateLimit.Pruning.{
  All-weaken, Sorted, Sorted-keep, Sorted-snoc, recent-recent, recent-stale, set_hits-same,
}

-- A call of `is_limited`, with its two readings of the clock.
pub record Call : Type 0 where
  pub now : ℕ
  pub later : ℕ
  pub ip : String

-- What the calls return, in order.
abbrev pub run : Limits → List Call → RateLimiter → List Bool
run l [] s = []
run l (c ∷ cs) s =
    (is_limited l c.now c.later c.ip s).0 ∷ run l cs (is_limited l c.now c.later c.ip s).1

-- The readings of a monotonic clock, from `clock` on.
abbrev pub InOrder : ℕ → List Call → Type 0
InOrder clock [] = Unit
InOrder clock (c ∷ cs) = (clock ≤ c.now) × (c.now ≤ c.later) × InOrder c.later cs

-- The specification: every admitted time of every ip is kept, and a call is limited when `max`
-- requests of its ip lie within the window.
abbrev pub over : Limits → ℕ → List ℕ → Bool
over l now ts = leb l.max_requests (length (recent l.window_seconds now ts))

abbrev pub spec_step : Limits → Call → (String → List ℕ) → String → List ℕ
spec_step l c log =
    if over l c.now (log c.ip) then log else set_hits c.ip (log c.ip ++ (c.now ∷ [])) log

abbrev pub spec_run : Limits → List Call → (String → List ℕ) → List Bool
spec_run l [] log = []
spec_run l (c ∷ cs) log = over l c.now (log c.ip) ∷ spec_run l cs (spec_step l c log)

-- The times of the calls of an ip that were not limited.
abbrev pub admitted : String → List Call → List Bool → List ℕ
admitted ip [] ds = []
admitted ip (c ∷ cs) [] = []
admitted ip (c ∷ cs) (d ∷ ds) =
    let rest = admitted ip cs ds in if not d && str_eq ip c.ip then c.now ∷ rest else rest

module _ (l : Limits) where
  -- From `clock` on, the limiter's times and the log's agree on what is recent.
  record Agrees (clock : ℕ) (s : RateLimiter) (log : String → List ℕ) : Type 0 where
    sorted : (ip : String) → Sorted (s.hits ip)
    bounded : (ip : String) → All (λ t. t ≤ clock) (s.hits ip)
    same :
        (ip : String) (now : ℕ)
        → clock ≤ now
        → recent l.window_seconds now (s.hits ip) ≡ recent l.window_seconds now (log ip)

  prune-Agrees :
      (clock now : ℕ) (ip : String) (s : RateLimiter) (log : String → List ℕ)
      → clock ≤ now
      → Agrees clock s log
      → Agrees now
          (record s { hits = set_hits ip (recent l.window_seconds now (s.hits ip)) s.hits })
          log
  prune-Agrees clock now ip s log le h = record {
    sorted = λ j. ground (
      arith,
      h.sorted j,
      Sorted-keep (λ t. ltb now (t + l.window_seconds)) (s.hits ip) (h.sorted ip),
    );
    bounded = λ j. elim (Bool-cases (str_eq j ip)) [
      | inl e ↦ rw e (
          All-keep (λ t. t ≤ now) (λ t. ltb now (t + l.window_seconds)) (s.hits ip)
            (All-weaken clock now (s.hits ip) le (h.bounded ip)))
      | inr e ↦ rw e (All-weaken clock now (s.hits j) le (h.bounded j))
    ];
    same = λ j n m. elim (Bool-cases (str_eq j ip)) [
      | inl e ↦
          rw (e, recent-recent l.window_seconds now n (s.hits ip) m, (str_eq_iff j ip).0 e)
            (h.same ip n (omega arith))
      | inr e ↦ rw e (h.same j n (omega arith))
    ];
  }

  record_hit-Agrees :
      (now : ℕ) (ip : String) (ts : List ℕ) (s : RateLimiter) (log : String → List ℕ)
      → Agrees now (record s { hits = set_hits ip ts s.hits }) log
      → Agrees now
          (record s { hits = set_hits ip (ts ++ (now ∷ [])) s.hits })
          (set_hits ip (log ip ++ (now ∷ [])) log)
  record_hit-Agrees now ip ts s log h =
      let here = set_hits-same ip ts s.hits in
      let order : Sorted ts = subst Sorted here (h.sorted ip) in
      let bound : All (λ t. t ≤ now) ts = subst (All (λ t. t ≤ now)) here (h.bounded ip) in
      record {
        sorted = λ j. ground (arith, h.sorted j, Sorted-snoc now ts order bound);
        bounded = λ j. ground (arith, h.bounded j, All-snoc (λ t. t ≤ now) now ts bound);
        same = λ j n m. elim (Bool-cases (str_eq j ip)) [
          | inl e ↦
              let p : ℕ → Bool = λ t. ltb n (t + l.window_seconds) in
              let agree : keep p ts ≡ keep p (log ip) =
                subst (λ xs. keep p xs ≡ keep p (log ip)) here (h.same ip n m) in
              rw (e, keep-append p ts (now ∷ []), keep-append p (log ip) (now ∷ []), agree)
          | inr e ↦
              let agree = h.same j n m in
              let other : recent l.window_seconds n (s.hits j) ≡ recent l.window_seconds n (log j) =
                rw e at agree in
              rw e other
        ];
      }

  cleanup-Agrees :
      (now later : ℕ) (s : RateLimiter) (log : String → List ℕ)
      → now ≤ later
      → Agrees now s log
      → Agrees later (record s { hits = cleanup l.window_seconds later s.hits }) log
  unfolding cleanup
  cleanup-Agrees now later s log le h = record {
    sorted = λ j. ground (arith, h.sorted j);
    bounded = λ j. elim (Bool-cases (is_stale l.window_seconds later (s.hits j))) [
      | inl e ↦ rw e tt
      | inr e ↦ rw e (All-weaken now later (s.hits j) le (h.bounded j))
    ];
    same = λ j n m. elim (Bool-cases (is_stale l.window_seconds later (s.hits j))) [
      | inl e ↦ rw e (
          sym (recent-stale l.window_seconds later n (s.hits j) (h.sorted j) e m)
          ∙ h.same j n (omega arith))
      | inr e ↦ rw e (h.same j n (omega arith))
    ];
  }

  unlimited-Agrees :
      (c : Call) (s : RateLimiter) (log : String → List ℕ) (b : Bool) (n : ℕ)
      → c.now ≤ c.later
      → Agrees c.now s log
      → Agrees c.later
          (record {
            hits = if b then cleanup l.window_seconds c.later s.hits else s.hits;
            request_count = n;
          })
          log
  unlimited-Agrees c s log true n le h =
      let h' = cleanup-Agrees c.now c.later s log le h in
      record { sorted = h'.sorted; bounded = h'.bounded; same = h'.same }
  unlimited-Agrees c s log false n le h = record {
    sorted = h.sorted;
    bounded = λ j. All-weaken c.now c.later (s.hits j) le (h.bounded j);
    same = λ j m q. h.same j m (omega arith);
  }

  is_limited-Agrees :
      (clock : ℕ) (c : Call) (s : RateLimiter) (log : String → List ℕ)
      → clock ≤ c.now
      → c.now ≤ c.later
      → Agrees clock s log
      → ((is_limited l c.now c.later c.ip s).0 ≡ over l c.now (log c.ip))
        × Agrees c.later (is_limited l c.now c.later c.ip s).1 (spec_step l c log)
  unfolding is_limited
  is_limited-Agrees clock c s log le le' h =
      let ts = recent l.window_seconds c.now (s.hits c.ip) in
      let here = h.same c.ip c.now le in
      let pruned = prune-Agrees clock c.now c.ip s log le h in
      elim (Bool-cases (leb l.max_requests (length ts))) [
        | inl full ↦
            let full' : over l c.now (log c.ip) ≡ true = rw here at full in
            rw (full, full') (refl, unlimited-Agrees c _ log false s.request_count le' pruned)
        | inr free ↦
            let free' : over l c.now (log c.ip) ≡ false = rw here at free in
            rw (free, free')
              (
                refl,
                unlimited-Agrees c (record s { hits = set_hits c.ip (ts ++ (c.now ∷ [])) s.hits }) _
                    ((s.request_count + 1) % 200 == 0) (s.request_count + 1) le'
                    (record_hit-Agrees c.now c.ip ts s log pruned),
              )
      ]

  run-Agrees :
      (clock : ℕ) (cs : List Call) (s : RateLimiter) (log : String → List ℕ)
      → InOrder clock cs
      → Agrees clock s log
      → run l cs s ≡ spec_run l cs log
  run-Agrees clock [] s log o h = refl
  run-Agrees clock (c ∷ cs) s log o h =
      let (same, h') = is_limited-Agrees clock c s log o.0 o.1 h in
      rw (same, run-Agrees c.later cs _ _ o.2 h')

  -- From a fresh limiter on, over any calls that a monotonic clock dates, the limiter answers what
  -- the specification answers: a request is limited exactly when `max_requests` admitted requests of
  -- its ip lie within the window. Neither the pruning of old times nor the periodic clean-up is seen.
  pub run-spec_run :
      (clock : ℕ) (cs : List Call)
      → InOrder clock cs
      → run l cs new_limiter ≡ spec_run l cs (λ ip. [])
  run-spec_run clock cs o =
      run-Agrees clock cs new_limiter (λ ip. []) o
        (record { sorted = λ ip. tt; bounded = λ ip. tt; same = λ ip n m. refl })
