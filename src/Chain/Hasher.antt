-- ===== src/Chain/Hasher.antt =====
-- backend/audit/chain/hasher.py (tools/sentora_verify/hasher.py is the same code).
use Prim.Native.String.{◌++◌ as ◌⧺◌}
use sentora.Prelude.{
  ℕ, ◌*◌, ◌/◌, ◌%◌, String, Option, none, some, List, [], ◌∷◌, str_eq, if◌then◌else◌,
}
use sentora.Chain.Entities.{Timestamp, instant, iso_text, ChainedAuditEntry, Hashable}
use sentora.Chain.Runtime.{Runtime}

abbrev pub genesis_sentinel : String
genesis_sentinel = "GENESIS"

abbrev pub timestamp_formats : List String
timestamp_formats =
    "%Y-%m-%dT%H:%M:%S.%f%z" ∷ "%Y-%m-%dT%H:%M:%S%z" ∷ "%Y-%m-%dT%H:%M:%S.%fZ"
    ∷ "%Y-%m-%dT%H:%M:%S.%f" ∷ "%Y-%m-%dT%H:%M:%SZ" ∷ "%Y-%m-%dT%H:%M:%S" ∷ []

module _ (rt : Runtime) where
  -- The branch of `_normalize_timestamp` for a datetime; its microsecond field is `t % 1000000`.
  unfoldable pub normalize_datetime : ℕ → String
  normalize_datetime t =
      let truncated = t / 1000 * 1000 in
      ◌⧺◌ (rt.strftime "%Y-%m-%dT%H:%M:%S." truncated)
        (◌⧺◌ (rt.format_03d (truncated % 1000000 / 1000)) "Z")

  -- The `for fmt in (…)` loop: the first format that parses.
  unfoldable pub parse_first : List String → String → Option ℕ
  parse_first [] s = none
  parse_first (fmt ∷ fmts) s = elim (rt.strptime fmt s) [
    | none ↦ parse_first fmts s
    | some dt ↦ some dt
  ]

  unfoldable pub normalize_timestamp : Timestamp → String
  normalize_timestamp (instant t) = normalize_datetime t
  normalize_timestamp (iso_text s) = elim (parse_first timestamp_formats s) [
    | none ↦ s
    | some dt ↦ normalize_datetime dt
  ]

  -- `previous_hash or GENESIS_SENTINEL`: the empty text is falsy too.
  unfoldable pub or_genesis : Option String → String
  or_genesis none = genesis_sentinel
  or_genesis (some h) = if str_eq h "" then genesis_sentinel else h

  unfoldable pub build_hashable : ChainedAuditEntry → Option String → Hashable
  unfolding or_genesis
  build_hashable e previous_hash = record {
    sequence = e.sequence;
    epoch = e.epoch;
    timestamp = normalize_timestamp e.timestamp;
    domain = e.domain;
    action = e.action;
    actor = e.actor;
    status = e.status;
    summary = e.summary;
    details = e.details;
    tenant_id = e.tenant_id;
    previous_hash = or_genesis previous_hash;
  }

  unfoldable pub compute_entry_hash : ChainedAuditEntry → Option String → String
  compute_entry_hash e previous_hash = rt.sha256 (rt.dumps (build_hashable e previous_hash))

  -- The successive `hasher.update` calls hash the concatenation.
  unfoldable pub concat_entries : List ChainedAuditEntry → String
  concat_entries [] = ""
  concat_entries (e ∷ es) = ◌⧺◌ (rt.dumps_entry e) (concat_entries es)

  unfoldable pub compute_export_hash : List ChainedAuditEntry → String
  unfolding concat_entries
  compute_export_hash es = rt.sha256 (concat_entries es)
