-- ===== src/RateLimit/Pruning.antt =====
-- The times that the limiter keeps (backend/utils/rate_limit.py): their order, and what pruning them
-- leaves.
use sentora.Prelude.{
  All, All-keep, All-snoc, Bool, List, Option-cases, String, [], arith, inl, inr, keep, last?, refl,
  some, str_eq_iff, true, ℕ, ◌++◌, ◌∷◌, ◌≡◌, ◌≤◌,
}
use sentora.RateLimit.{is_stale, recent, set_hits}

-- The order and the bound of the times that are kept.
abbrev pub Sorted : List ℕ → Type 0
Sorted [] = Unit
Sorted (t ∷ ts) = All (λ u. t ≤ u) ts × Sorted ts

pub All-weaken : (m n : ℕ) (ts : List ℕ) → m ≤ n → All (λ t. t ≤ m) ts → All (λ t. t ≤ n) ts
All-weaken m n [] le h = tt
All-weaken m n (t ∷ ts) le h = (omega (arith, h.0), All-weaken m n ts le h.1)

pub Sorted-keep : (p : ℕ → Bool) (ts : List ℕ) → Sorted ts → Sorted (keep p ts)
Sorted-keep p [] h = tt
Sorted-keep p (t ∷ ts) h = ground (arith, Sorted-keep p ts, All-keep (λ u. t ≤ u) p ts)

pub Sorted-snoc : (n : ℕ) (ts : List ℕ) → Sorted ts → All (λ t. t ≤ n) ts → Sorted (ts ++ (n ∷ []))
Sorted-snoc n [] h b = (tt, tt)
Sorted-snoc n (t ∷ ts) h b = (All-snoc (λ u. t ≤ u) n ts h.0 b.0, Sorted-snoc n ts h.1 b.1)

pub last_max : (t m : ℕ) (ts : List ℕ) → Sorted (t ∷ ts) → last? (t ∷ ts) ≡ some m → t ≤ m
last_max t m [] h e = ground arith
last_max t m (u ∷ ts) h e = omega (arith, h.0.0, last_max u m ts h.1 e)

pub set_hits-same :
    (ip : String) (ts : List ℕ) (hits : String → List ℕ) → set_hits ip ts hits ip ≡ ts
set_hits-same ip ts hits = ground (arith, str_eq_iff ip ip)

pub recent-stale :
    (w later now : ℕ) (ts : List ℕ)
    → Sorted ts
    → is_stale w later ts ≡ true
    → later ≤ now
    → recent w now ts ≡ []
recent-stale w later now [] h e le = refl
recent-stale w later now (t ∷ []) h e le = ground arith
recent-stale w later now (t ∷ u ∷ ts) h e le = elim (Option-cases (last? (u ∷ ts))) [
  | inl empty ↦ ground (arith, empty, recent-stale w later now (u ∷ ts))
  | inr (m, l) ↦ ground (arith, recent-stale w later now (u ∷ ts), last_max t m (u ∷ ts) h l)
]

pub recent-recent : (w m n : ℕ) (ts : List ℕ) → m ≤ n → recent w n (recent w m ts) ≡ recent w n ts
recent-recent w m n [] le = refl
recent-recent w m n (t ∷ ts) le = ground (arith, recent-recent w m n ts le)
