-- ===== src/RateLimit/Bound.antt =====
-- The bound that the limiter of backend/utils/rate_limit.py puts on every window of time.
use sentora.Prelude.{
  Bool, Bool-cases, List, String, [], ap, append-nil, append_assoc, arith, false, inl, inr, keep,
  keep-append, leb, length, length-append, ltb, str_eq, str_eq_iff, subst, true, ℕ, ◌&&◌, ◌++◌, ◌+◌,
  ◌∷◌, ◌≡◌, ◌≤◌,
}
use sentora.RateLimit.{Limits, new_limiter, set_hits}
use sentora.RateLimit.Window.{Call, InOrder, admitted, over, run, run-spec_run, spec_run}

-- The time lies in the window of the given length from `start` on.
abbrev pub in_window : ℕ → ℕ → ℕ → Bool
in_window window start t = leb start t && ltb t (start + window)

length-keep_mono :
    (p q : ℕ → Bool) (ts : List ℕ)
    → ((t : ℕ) → p t ≡ true → q t ≡ true)
    → length (keep p ts) ≤ length (keep q ts)
length-keep_mono p q [] h = omega arith
length-keep_mono p q (t ∷ ts) h = ground (arith, h t, length-keep_mono p q ts)

module _ (l : Limits) (start : ℕ) where
  abbrev count : List ℕ → ℕ
  count ts = length (keep (in_window l.window_seconds start) ts)

  -- One more time is admitted when the window before it is not full.
  count-admit :
      (now : ℕ) (ts : List ℕ)
      → over l now ts ≡ false
      → count ts ≤ l.max_requests
      → count (ts ++ (now ∷ [])) ≤ l.max_requests
  count-admit now ts free le =
      let p : ℕ → Bool = in_window l.window_seconds start in
      elim (Bool-cases (p now)) [
        | inr outside ↦ rw (keep-append p ts (now ∷ []), outside, append-nil (keep p ts)) le
        | inl inside ↦
            let fewer =
              length-keep_mono p (λ t. ltb now (t + l.window_seconds)) ts
                (λ t h. ground (arith, inside)) in
            rw (keep-append p ts (now ∷ []), inside)
              (ground (arith, fewer, length-append (keep p ts) (now ∷ [])))
      ]

  count-spec_run :
      (ip : String) (cs : List Call) (log : String → List ℕ)
      → count (log ip) ≤ l.max_requests
      → count (log ip ++ admitted ip cs (spec_run l cs log)) ≤ l.max_requests
  count-spec_run ip [] log le = rw (append-nil (log ip)) le
  count-spec_run ip (c ∷ cs) log le =
      let log' = set_hits c.ip (log c.ip ++ (c.now ∷ [])) log in
      let ds = admitted ip cs (spec_run l cs log') in
      let rest = count-spec_run ip cs log' in
      elim (Bool-cases (over l c.now (log c.ip))) [
        | inl full ↦ rw full (count-spec_run ip cs log le)
        | inr free ↦ elim (Bool-cases (str_eq ip c.ip)) [
          | inl same ↦
              let named : log ip ≡ log c.ip = ap log ((str_eq_iff ip c.ip).0 same) in
              let rest' : count (log c.ip ++ (c.now ∷ [])) ≤ l.max_requests
                  → count ((log c.ip ++ (c.now ∷ [])) ++ ds) ≤ l.max_requests =
                rw same at rest in
              let more = rest' (count-admit c.now (log c.ip) free (rw named at le)) in
              rw (free, same, named)
                (subst (λ ts. count ts ≤ l.max_requests) (append_assoc (log c.ip) (c.now ∷ []) ds)
                  more)
          | inr other ↦
              let rest' : count (log ip) ≤ l.max_requests → count (log ip ++ ds) ≤ l.max_requests =
                rw other at rest in
              rw (free, other) (rest' le)
        ]
      ]

  -- From a fresh limiter on, over any calls that a monotonic clock dates, at most `max_requests`
  -- requests of an ip are let through in any stretch of time of the window's length.
  pub run-bound :
      (clock : ℕ) (cs : List Call) (ip : String)
      → InOrder clock cs
      → length (keep (in_window l.window_seconds start) (admitted ip cs (run l cs new_limiter)))
        ≤ l.max_requests
  run-bound clock cs ip o =
      rw (run-spec_run l clock cs o) (count-spec_run ip cs (λ j. []) (omega arith))
