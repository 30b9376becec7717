-- ===== src/ApiKeys/Limiters.antt =====
-- The per-key limiters of backend/domains/api_keys/middleware.py: the two stores, their entries'
-- renewal and eviction. A store is a function that gives `none` for a key that it does not hold, and a
-- limiter is used through its entry, where no other code runs between the two.
use sentora.Prelude.{
  Bool, Option, String, false, if◌then◌else◌, ltb, none, some, str_eq, true, ℕ, ◌%◌, ◌+◌, ◌==◌,
}
use sentora.RateLimit.{Limits, RateLimiter, is_limited, new_limiter}

pub record LimiterEntry : Type 0 where
  pub limit : ℕ
  pub limiter : RateLimiter
  pub accessed : ℕ

abbrev pub LimiterStore : Type 0
LimiterStore = String → Option LimiterEntry

-- The module's globals.
pub record Limiters : Type 0 where
  pub minute_limiters : LimiterStore
  pub hour_limiters : LimiterStore
  pub access_count : ℕ

abbrev pub limiter_ttl_seconds : ℕ
limiter_ttl_seconds = 3600

abbrev pub limiter_cleanup_interval : ℕ
limiter_cleanup_interval = 100

abbrev pub put : String → LimiterEntry → LimiterStore → LimiterStore
put key_id e store k = if str_eq k key_id then some e else store k

-- The sweep of one store.
abbrev pub evict : ℕ → LimiterStore → LimiterStore
evict now store k = elim (store k) [
  | none ↦ none
  | some e ↦ if ltb (e.accessed + limiter_ttl_seconds) now then none else some e
]

unfoldable pub evict_stale_limiters : ℕ → Limiters → Limiters
evict_stale_limiters now s = record s {
  minute_limiters = evict now s.minute_limiters;
  hour_limiters = evict now s.hour_limiters;
}

-- The entry that a `_get_…_limiter` leaves: a fresh limiter when there is none with this limit.
abbrev pub renewed : ℕ → ℕ → Option LimiterEntry → LimiterEntry
renewed now limit none = record { limit = limit; limiter = new_limiter; accessed = now }
renewed now limit (some e) =
    if e.limit == limit
    then record e { accessed = now }
    else record { limit = limit; limiter = new_limiter; accessed = now }

-- `_get_minute_limiter`, with its readings of the clock for the sweep and for the access.
unfoldable pub get_minute_limiter : ℕ → ℕ → String → ℕ → Limiters → Limiters
get_minute_limiter swept now key_id limit s =
    let counted = record s { access_count = s.access_count + 1 } in
    let s' =
      if (s.access_count + 1) % limiter_cleanup_interval == 0
      then evict_stale_limiters swept counted
      else counted in
    record s' {
      minute_limiters =
          put key_id (renewed now limit (s'.minute_limiters key_id)) s'.minute_limiters;
    }

-- `_get_hour_limiter`
unfoldable pub get_hour_limiter : ℕ → String → ℕ → Limiters → Limiters
get_hour_limiter now key_id limit s = record s {
  hour_limiters = put key_id (renewed now limit (s.hour_limiters key_id)) s.hour_limiters;
}

-- `is_limited` of the limiter in the entry.
abbrev pub hit : ℕ → ℕ → ℕ → String → LimiterStore → Bool × LimiterStore
hit window now later key_id store = elim (store key_id) [
  | none ↦ (false, store)
  | some e ↦
      let limits : Limits = record { max_requests = e.limit; window_seconds = window } in
      let (limited, limiter') = is_limited limits now later key_id e.limiter in
      (limited, put key_id (record e { limiter = limiter' }) store)
]

-- The clock's readings in one pass: the sweep, the two accesses, and those of the two limiters.
pub record Readings : Type 0 where
  pub swept : ℕ
  pub minute_accessed : ℕ
  pub hour_accessed : ℕ
  pub minute_now : ℕ
  pub minute_later : ℕ
  pub hour_now : ℕ
  pub hour_later : ℕ

-- The rate limit of a request: the hour's limiter is not asked when the minute's refuses.
unfoldable pub rate_limited : Readings → String → ℕ → ℕ → Limiters → Bool × Limiters
rate_limited r key_id per_minute per_hour s =
    let s1 =
      get_hour_limiter r.hour_accessed key_id per_hour
        (get_minute_limiter r.swept r.minute_accessed key_id per_minute s) in
    let (by_minute, minutes) = hit 60 r.minute_now r.minute_later key_id s1.minute_limiters in
    let s2 = record s1 { minute_limiters = minutes } in
    let (by_hour, hours) = hit 3600 r.hour_now r.hour_later key_id s2.hour_limiters in
    if by_minute then (true, s2) else (by_hour, record s2 { hour_limiters = hours })
