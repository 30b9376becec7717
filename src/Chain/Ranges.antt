-- ===== src/Chain/Ranges.antt =====
-- Ranges of a log in the order of its sequences (`stream_entries_in_range` of
-- backend/audit/chain/repository.py).
use native.Mathlib.Decide.{dec_le}
use sentora.Prelude.{
  All, All-keep, Bool, Bool-cases, List, [], arith, inl, inr, keep, last?, refl, some, suc, ℕ, ◌++◌,
  ◌+◌, ◌<◌, ◌∷◌, ◌≡◌, ◌≤◌,
}
use sentora.Chain.Entities.{ChainedAuditEntry}
use sentora.Chain.Repository.{in_range}
use sentora.Chain.Runtime.{Ascending}

-- Every entry comes before those behind it.
Ascending-All :
    (e : ChainedAuditEntry) (es : List ChainedAuditEntry)
    → Ascending (e ∷ es)
    → All (λ f. e.sequence < f.sequence) es
Ascending-All e [] h = tt
Ascending-All e (f ∷ es) h = (h.0, All-map e f es h.0 (Ascending-All f es h.1))
  where
    All-map :
        (e f : ChainedAuditEntry) (xs : List ChainedAuditEntry)
        → e.sequence < f.sequence
        → All (λ g. f.sequence < g.sequence) xs
        → All (λ g. e.sequence < g.sequence) xs
    All-map e f [] l h = tt
    All-map e f (x ∷ xs) l h = (omega (arith, h.0), All-map e f xs l h.1)

Ascending-tail :
    (e : ChainedAuditEntry) (es : List ChainedAuditEntry) → Ascending (e ∷ es) → Ascending es
Ascending-tail e [] h = tt
Ascending-tail e (f ∷ es) h = h.1

Ascending-cons :
    (e : ChainedAuditEntry) (es : List ChainedAuditEntry)
    → All (λ f. e.sequence < f.sequence) es
    → Ascending es
    → Ascending (e ∷ es)
Ascending-cons e [] h l = tt
Ascending-cons e (f ∷ es) h l = (h.0, l)

pub Ascending-keep :
    (p : ChainedAuditEntry → Bool) (es : List ChainedAuditEntry)
    → Ascending es
    → Ascending (keep p es)
Ascending-keep p [] h = tt
Ascending-keep p (e ∷ es) h =
    let rest = Ascending-keep p es (Ascending-tail e es h) in
    let above = All-keep (λ f. e.sequence < f.sequence) p es (Ascending-All e es h) in
    elim (Bool-cases (p e)) [
      | inl kept ↦ rw kept (Ascending-cons e (keep p es) above rest)
      | inr gone ↦ rw gone rest
    ]

keep-in_range-past :
    (a b c : ℕ) (es : List ChainedAuditEntry)
    → b ≤ c
    → All (λ f. c < f.sequence) es
    → keep (in_range a b) es ≡ []
unfolding in_range
keep-in_range-past a b c [] le h = refl
keep-in_range-past a b c (e ∷ es) le h = ground (arith, h.0, keep-in_range-past a b c es le h.1)

-- A range of an ascending log is its lower part followed by its upper part.
pub keep-in_range-split :
    (a b c : ℕ) (es : List ChainedAuditEntry)
    → Ascending es
    → a ≤ suc b
    → b ≤ c
    → keep (in_range a c) es ≡ keep (in_range a b) es ++ keep (in_range (b + 1) c) es
unfolding in_range
keep-in_range-split a b c [] h l m = refl
keep-in_range-split a b c (e ∷ es) h l m =
    let rest = keep-in_range-split a b c es (Ascending-tail e es h) l m in
    elim (dec_le e.sequence b) [
      | yes low ↦ ground (arith, rest)
      | no high ↦
          let none' = keep-in_range-past a b e.sequence es (omega arith) (Ascending-All e es h) in
          ground (arith, rest, none')
    ]

pub keep-in_range-bound :
    (a b : ℕ) (es : List ChainedAuditEntry) → All (λ e. e.sequence ≤ b) (keep (in_range a b) es)
unfolding in_range
keep-in_range-bound a b [] = tt
keep-in_range-bound a b (e ∷ es) = ground (arith, keep-in_range-bound a b es)

pub keep-in_range-empty :
    (a b : ℕ) (es : List ChainedAuditEntry) → b < a → keep (in_range a b) es ≡ []
unfolding in_range
keep-in_range-empty a b [] h = refl
keep-in_range-empty a b (e ∷ es) h = ground (arith, keep-in_range-empty a b es h)

pub keep-in_range-whole :
    (b : ℕ) (es : List ChainedAuditEntry)
    → All (λ e. e.sequence ≤ b) es
    → keep (in_range 0 b) es ≡ es
unfolding in_range
keep-in_range-whole b [] h = refl
keep-in_range-whole b (e ∷ es) h = ground (arith, h.0, keep-in_range-whole b es h.1)

pub last-bound :
    (es : List ChainedAuditEntry) (f : ChainedAuditEntry)
    → Ascending es
    → last? es ≡ some f
    → All (λ e. e.sequence ≤ f.sequence) es
last-bound [] f h l = tt
last-bound (e ∷ []) f h l = (ground (arith, l), tt)
last-bound (e ∷ g ∷ es) f h l =
    let rest = last-bound (g ∷ es) f h.1 l in (omega (arith, h.0, rest.0), rest)
