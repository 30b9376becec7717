-- ===== src/Chain/Tamper.antt =====
-- What a verified chain commits to: its last hash fixes every hashed field of every entry, or else
-- two different contents with one SHA-256 digest are at hand.
use sentora.Prelude.{String, ◌≡◌, ◌≢◌, ◌⊎◌, Option, none, some, List, [], ◌∷◌}
use sentora.Chain.Entities.{ChainedAuditEntry, Hashable}
use sentora.Chain.Runtime.{Runtime}
use sentora.Chain.Hasher.{build_hashable, normalize_timestamp}
use sentora.Chain.Linked.{Linked}

module _ (rt : Runtime) where
  -- What the hash of an entry has to cover: every field but the hash itself, a timestamp to the
  -- millisecond.
  pub record SameContent (x y : ChainedAuditEntry) : Type 0 where
    pub sequence : x.sequence ≡ y.sequence
    pub epoch : x.epoch ≡ y.epoch
    pub timestamp : normalize_timestamp rt x.timestamp ≡ normalize_timestamp rt y.timestamp
    pub domain : x.domain ≡ y.domain
    pub action : x.action ≡ y.action
    pub actor : x.actor ≡ y.actor
    pub status : x.status ≡ y.status
    pub summary : x.summary ≡ y.summary
    pub details : x.details ≡ y.details
    pub tenant : x.tenant_id ≡ y.tenant_id
    pub link : x.previous_hash ≡ y.previous_hash

  -- The same content, entry by entry.
  abbrev pub SameEntries : List ChainedAuditEntry → List ChainedAuditEntry → Type 0
  SameEntries [] [] = Unit
  SameEntries [] (y ∷ ys) = ⊥
  SameEntries (x ∷ xs) [] = ⊥
  SameEntries (x ∷ xs) (y ∷ ys) = SameContent x y × SameEntries xs ys

  -- At one place of the two chains stand entries that are hashed as two different contents to one
  -- digest.
  abbrev pub Collides : ChainedAuditEntry → ChainedAuditEntry → Type 0
  Collides x y =
      (build_hashable rt x x.previous_hash ≢ build_hashable rt y y.previous_hash)
      × (rt.sha256 (rt.dumps (build_hashable rt x x.previous_hash))
          ≡ rt.sha256 (rt.dumps (build_hashable rt y y.previous_hash)))

  abbrev pub Collision : List ChainedAuditEntry → List ChainedAuditEntry → Type 0
  Collision [] ys = ⊥
  Collision (x ∷ xs) [] = ⊥
  Collision (x ∷ xs) (y ∷ ys) = Collides x y ⊎ Collision xs ys

  abbrev content : ChainedAuditEntry → Hashable
  content e = build_hashable rt e e.previous_hash

  -- Both chains are at their start, or both point at a digest.
  abbrev Alike : Option String → Option String → Type 0
  Alike none none = Unit
  Alike none (some k) = ⊥
  Alike (some h) none = ⊥
  Alike (some h) (some k) = (h ≢ "") × (k ≢ "")
