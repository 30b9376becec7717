-- ===== src/Chain/Offline.antt =====
-- What the verification of an exported file decides (tools/sentora_verify/verifier.py), and what it
-- says of an export of backend/audit/chain/queries.py.
use sentora.Prelude.{
  Bool-cases, List, Option, Option-cases, String, [], arith, inl, inr, length, none, opt_eq_iff,
  refl, some, str_eq, str_eq_iff, ℕ, ◌+◌, ◌↔◌, ◌∷◌, ◌≡◌, ◌⊎◌,
}
use sentora.Chain.Entities.{ChainedAuditEntry}
use sentora.Chain.Export.{
  EpochExport, broken_link, check_export_hash, find_break, find_gap, passes, verdict, verify_epoch,
}
use sentora.Chain.Hasher.{compute_entry_hash, compute_export_hash}
use sentora.Chain.Linked.{Linked}
use sentora.Chain.Runtime.{Runtime}

module _ (rt : Runtime) where
  -- The two passes over the file find nothing exactly when the entries are linked.
  passes_sound :
      (first i : ℕ) (e : ChainedAuditEntry) (es : List ChainedAuditEntry)
      → find_gap first i es ≡ none
      → find_break rt i (some e) es ≡ none
      → Linked rt (first + i) (some e.hash) es
  unfolding find_gap find_break broken_link
  passes_sound first i e [] g b = tt
  passes_sound first i e (x ∷ xs) g b = ground (
    arith,
    opt_eq_iff x.previous_hash (some e.hash),
    str_eq_iff (compute_entry_hash rt x x.previous_hash) x.hash,
    passes_sound first (i + 1) x xs,
  )

  passes_complete :
      (first i : ℕ) (e : ChainedAuditEntry) (es : List ChainedAuditEntry)
      → Linked rt (first + i) (some e.hash) es
      → (find_gap first i es ≡ none) × (find_break rt i (some e) es ≡ none)
  unfolding find_gap find_break broken_link
  passes_complete first i e [] l = (refl, refl)
  passes_complete first i e (x ∷ xs) l = ground (
    arith,
    opt_eq_iff x.previous_hash (some e.hash),
    str_eq_iff (compute_entry_hash rt x x.previous_hash) x.hash,
    passes_complete first (i + 1) x xs,
  )

  both_passes :
      (e : ChainedAuditEntry) (es : List ChainedAuditEntry)
      → ((find_gap e.sequence 0 (e ∷ es) ≡ none) × (find_break rt 0 none (e ∷ es) ≡ none))
        ↔ Linked rt e.sequence e.previous_hash (e ∷ es)
  unfolding find_gap find_break
  both_passes e es = (
    λ h.
        let (gap, break) = h in
        ground (
          arith,
          str_eq_iff (compute_entry_hash rt e e.previous_hash) e.hash,
          passes_sound e.sequence 1 e es,
        ),
    λ l. ground (
      arith,
      str_eq_iff (compute_entry_hash rt e e.previous_hash) e.hash,
      passes_complete e.sequence 1 e es,
    ),
  )

  -- The file's own export hash, where it has one that is not empty, is that of its entries.
  abbrev pub HasExportHash : EpochExport → Option String → Type 0
  HasExportHash x none = Unit
  HasExportHash x (some h) = (h ≡ "") ⊎ (compute_export_hash rt x.entries ≡ h)

  pub check_export_hash_iff :
      (x : EpochExport)
      → (check_export_hash rt x ≡ passes (length x.entries))
        ↔ HasExportHash x x.metadata.export_hash
  unfolding check_export_hash
  check_export_hash_iff x = elim (Option-cases x.metadata.export_hash) [
    | inl absent ↦ rw (absent, check_export_hash) ((λ c. tt), (λ c. refl))
    | inr (h, e) ↦ rw e (
      λ c. elim (Bool-cases (str_eq h "")) [
        | inl empty ↦ inl ((str_eq_iff h "").0 empty)
        | inr full ↦ inr (ground (arith, str_eq_iff (compute_export_hash rt x.entries) h))
      ],
      λ c. elim c [
        | inl empty ↦ ground (arith, str_eq_iff h "")
        | inr same ↦ ground (arith, str_eq_iff (compute_export_hash rt x.entries) h)
      ],
    )
  ]

  pub verify_epoch-Linked :
      (x : EpochExport) (e : ChainedAuditEntry) (es : List ChainedAuditEntry)
      → x.entries ≡ e ∷ es
      → Linked rt e.sequence e.previous_hash x.entries
      → verify_epoch rt x ≡ verdict (check_export_hash rt x)
  unfolding verify_epoch
  verify_epoch-Linked x e es h l =
      let l' : Linked rt e.sequence e.previous_hash (e ∷ es) = rw h at l in
      let (gap, break) = (both_passes e es).1 l' in ground (arith, gap, break)
