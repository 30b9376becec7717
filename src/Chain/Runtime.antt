-- ===== src/Chain/Runtime.antt =====
-- What the chain calls and this repository does not implement: SHA-256, JSON and datetime
-- formatting of the standard library, and MongoDB's ordering and storage of datetimes.
use mathlib.Core.List.{Perm}
use sentora.Prelude.{ℕ, ◌<◌, ◌/◌, String, ◌≡◌, Option, List, [], ◌∷◌}
use sentora.Chain.Entities.{ChainedAuditEntry, Hashable}

pub record Runtime : Type 0 where
  -- `hashlib.sha256(s.encode("utf-8")).hexdigest()`
  pub sha256 : String → String
  -- `json.dumps(…, sort_keys=True, ensure_ascii=True, default=str)` of a hashable dict and of an entry
  pub dumps : Hashable → String
  pub dumps_entry : ChainedAuditEntry → String
  -- `dt.strftime(format)`; `datetime.strptime(s, format)`, where `none` is ValueError
  pub strftime : String → ℕ → String
  pub strptime : String → String → Option ℕ
  pub isoformat : ℕ → String
  -- f"{n:03d}"
  pub format_03d : ℕ → String
  -- `.sort("sequence", 1)` on the documents that a query selects
  pub sort : List ChainedAuditEntry → List ChainedAuditEntry
  -- a datetime as it is read back from the database
  pub stored_datetime : ℕ → ℕ

abbrev pub Ascending : List ChainedAuditEntry → Type 0
Ascending [] = Unit
Ascending (e ∷ []) = Unit
Ascending (e ∷ f ∷ es) = (e.sequence < f.sequence) × Ascending (f ∷ es)

-- MongoDB: a sort returns the same documents, and leaves an ascending list as it is; a stored
-- datetime keeps its milliseconds.
pub record MongoLaws (rt : Runtime) : Type 0 where
  pub sort-perm : (es : List ChainedAuditEntry) → Perm (rt.sort es) es
  pub sort_sorted : (es : List ChainedAuditEntry) → Ascending es → rt.sort es ≡ es
  pub keeps_millis : (t : ℕ) → rt.stored_datetime t / 1000 ≡ t / 1000
