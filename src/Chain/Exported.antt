-- ===== src/Chain/Exported.antt =====
-- An export of backend/audit/chain/queries.py under tools/sentora_verify/verifier.py, and files on
-- which the tool raises.
use sentora.Prelude.{
  ℕ, suc, ◌+◌, ◌≡◌, ◌≢◌, refl, ap, ◌∙◌, subst, Option, none, some, List, [], ◌∷◌, ◌++◌, map, arith,
  str_eq, str_eq_iff, opt_eq_iff, length, if◌then◌else◌, String,
}
use sentora.Chain.Entities.{Timestamp, instant, iso_text, ChainedAuditEntry, ChainDb, ok}
use sentora.Chain.Runtime.{Runtime}
use sentora.Chain.Hasher.{
  compute_entry_hash, compute_export_hash, concat_entries, build_hashable, normalize_timestamp,
  parse_first, timestamp_formats,
}
use sentora.Chain.Repository.{stream_entries_for_epoch}
use sentora.Chain.Scan.{last-cons}
use sentora.Chain.Linked.{Linked, IsSealed}
use sentora.Chain.Export.{
  EpochExport, export_hash_mismatch, verdict, type_error, fails, passes, serialise,
  serialise_timestamp, make_export, export_epoch, find_gap, find_break, broken_link,
  check_export_hash, verify_epoch,
}
use sentora.Chain.Offline.{verify_epoch-Linked}

-- `strptime` reads back what `isoformat` writes, under the first format that fits.
pub record ReadsIsoformat (rt : Runtime) : Type 0 where
  pub parses : (t : ℕ) → parse_first rt timestamp_formats (rt.isoformat t) ≡ some t

module _ (rt : Runtime) where
  normalize-serialise :
      ReadsIsoformat rt
      → (ts : Timestamp)
      → normalize_timestamp rt (serialise_timestamp rt ts) ≡ normalize_timestamp rt ts
  unfolding normalize_timestamp
  normalize-serialise law (instant t) = rw (law.parses t, normalize_timestamp)
  normalize-serialise law (iso_text s) = refl

  -- Writing the timestamps as text leaves every hash and link as it was.
  Linked-serialise :
      ReadsIsoformat rt
      → (n : ℕ) (p : Option String) (es : List ChainedAuditEntry) → Linked rt n p es
      → Linked rt n p (map (serialise rt) es)
  unfolding compute_entry_hash build_hashable
  Linked-serialise law n p [] l = tt
  Linked-serialise law n p (e ∷ es) l = (
    l.0,
    l.1,
    cc (normalize-serialise law e.timestamp, l.2),
    Linked-serialise law (n + 1) (some e.hash) es l.3,
  )

  length-serialise : (es : List ChainedAuditEntry) → length (map (serialise rt) es) ≡ length es
  length-serialise [] = refl
  length-serialise (e ∷ es) = ap suc (length-serialise es)

  check_export_hash-made :
      ((s : String) → rt.sha256 s ≢ "")
      → (db : ChainDb) (epoch : ℕ) (e f : ChainedAuditEntry) (es : List ChainedAuditEntry)
      → check_export_hash rt (make_export rt db epoch e f es) ≡ (
          if str_eq (compute_export_hash rt (map (serialise rt) es)) (compute_export_hash rt es)
          then passes (length es)
          else fails (length es) none export_hash_mismatch)
  unfolding check_export_hash compute_export_hash
  check_export_hash-made hex db epoch e f es = ground (
    arith,
    hex (concat_entries rt es),
    str_eq_iff (rt.sha256 (concat_entries rt es)) "",
    length-serialise es,
  )

  export_epoch-made :
      (db : ChainDb) (epoch : ℕ) (x : EpochExport) (db' : ChainDb) (e : ChainedAuditEntry)
      (es : List ChainedAuditEntry)
      → export_epoch rt db epoch ≡ (ok x, db')
      → stream_entries_for_epoch rt db epoch ≡ e ∷ es
      → (f : ChainedAuditEntry) × (x ≡ make_export rt db epoch e f (e ∷ es))
  unfolding export_epoch
  export_epoch-made db epoch x db' e es h entries =
      let (f, last) = last-cons e es in (f, ground (arith, last))

  -- The verdict of the tool on an export of linked entries: accepted exactly when hashing the
  -- entries as they stand in the database gives the same digest as hashing them as they stand in
  -- the file, where each timestamp has become text; refused for its export hash otherwise.
  pub verify_epoch-export :
      ReadsIsoformat rt
      → ((s : String) → rt.sha256 s ≢ "")
      → (db : ChainDb) (epoch : ℕ) (x : EpochExport) (db' : ChainDb) (e : ChainedAuditEntry)
        (es : List ChainedAuditEntry)
      → export_epoch rt db epoch ≡ (ok x, db')
      → stream_entries_for_epoch rt db epoch ≡ e ∷ es
      → Linked rt e.sequence e.previous_hash (e ∷ es)
      → verify_epoch rt x
        ≡ verdict (
            if str_eq
              (compute_export_hash rt (map (serialise rt) (e ∷ es)))
              (compute_export_hash rt (e ∷ es))
            then passes (suc (length es))
            else fails (suc (length es)) none export_hash_mismatch)
  verify_epoch-export law hex db epoch x db' e es h entries l =
      let (f, made) = export_epoch-made db epoch x db' e es h entries in
      rw made (
        verify_epoch-Linked rt (make_export rt db epoch e f (e ∷ es)) (serialise rt e)
          (map (serialise rt) es) refl (Linked-serialise law e.sequence e.previous_hash (e ∷ es) l)
        ∙ ap verdict (check_export_hash-made hex db epoch e f (e ∷ es)))

-- Sequences count up from `n`.
abbrev pub Counts : ℕ → List ChainedAuditEntry → Type 0
Counts n [] = Unit
Counts n (e ∷ es) = (e.sequence ≡ n) × Counts (n + 1) es

find_gap-Counts :
    (first i : ℕ) (es : List ChainedAuditEntry) → Counts (first + i) es → find_gap first i es ≡ none
unfolding find_gap
find_gap-Counts first i [] c = refl
find_gap-Counts first i (e ∷ es) c = ground (arith, find_gap-Counts first (i + 1) es)

module _ (rt : Runtime) where
  find_break-crash :
      (n i : ℕ) (e : ChainedAuditEntry) (xs : List ChainedAuditEntry) (y : ChainedAuditEntry)
      (ys : List ChainedAuditEntry)
      → Linked rt n (some e.hash) xs
      → IsSealed rt y
      → y.previous_hash ≡ none
      → find_break rt i (some e) (xs ++ y ∷ ys) ≡ some type_error
  unfolding find_break broken_link
  find_break-crash n i e [] y ys l s p =
      ground (arith, str_eq_iff (compute_entry_hash rt y y.previous_hash) y.hash)
  find_break-crash n i e (x ∷ xs) y ys l s p = ground (
    arith,
    opt_eq_iff x.previous_hash (some e.hash),
    str_eq_iff (compute_entry_hash rt x x.previous_hash) x.hash,
    find_break-crash (n + 1) (i + 1) x xs y ys,
  )

  -- A file in which an entry behind the first has no previous hash, and is hashed accordingly, makes
  -- the tool raise TypeError instead of reporting the broken link, if the sequences count up and
  -- the entries before it are linked.
  pub verify_epoch-type_error :
      (x : EpochExport) (e : ChainedAuditEntry) (xs : List ChainedAuditEntry)
      (y : ChainedAuditEntry) (ys : List ChainedAuditEntry)
      → x.entries ≡ e ∷ (xs ++ y ∷ ys)
      → Counts e.sequence (e ∷ (xs ++ y ∷ ys))
      → Linked rt e.sequence e.previous_hash (e ∷ xs)
      → IsSealed rt y
      → y.previous_hash ≡ none
      → verify_epoch rt x ≡ type_error
  unfolding verify_epoch find_break
  verify_epoch-type_error x e xs y ys h c l s p =
      let gap =
        find_gap-Counts e.sequence 0 (e ∷ (xs ++ y ∷ ys))
          (subst (λ n. Counts n (e ∷ (xs ++ y ∷ ys))) (omega arith) c) in
      let crash = find_break-crash (e.sequence + 1) 1 e xs y ys l.3 s p in
      ground (arith, gap, crash, str_eq_iff (compute_entry_hash rt e e.previous_hash) e.hash)
