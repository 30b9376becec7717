-- ===== src/Compliance/Resolution.antt =====
-- Which controls a run evaluates (`resolve_active_controls`, backend/domains/compliance/engine.py).
use sentora.Prelude.{
  Bool, Bool-cases, List, Option, Option-cases, String, [], append_assoc, false, if◌then◌else◌, inl,
  inr, keep, keep-append, map, none, refl, some, str_eq, sym, true, ◌++◌, ◌∷◌, ◌≡◌, ◌⊎◌,
}
use sentora.Compliance.Engine.{
  Catalogue, ResolvedControl, config_key, framework_enabled, get_config, get_control_configs,
  resolve_active_controls, resolve_all, resolve_control, resolve_frameworks, selected,
}
use sentora.Compliance.Entities.{ComplianceDb, ControlConfiguration, ControlDefinition}
use sentora.Compliance.Sharing.{map-append}

-- A configuration that is there does not disable its control.
abbrev pub allowed : Option ControlConfiguration → Bool
allowed none = true
allowed (some config) = config.enabled

-- A definition, built in or the tenant's own, of a framework.
abbrev pub definitions : Catalogue → ComplianceDb → String → List ControlDefinition
definitions cat db fw_id =
    cat.framework_controls fw_id ++ keep (λ d. str_eq d.framework_id fw_id) db.custom_controls

-- The framework and the id of each control that is to run: those of the enabled frameworks, in their
-- order, without the disabled ones.
abbrev pub active_ids :
    Catalogue → ComplianceDb → List ControlConfiguration → List String → List (String × String)
active_ids cat db configs [] = []
active_ids cat db configs (fw_id ∷ fws) =
    let rest = active_ids cat db configs fws in
    if framework_enabled fw_id db.framework_configs
    then map (λ d. (fw_id, d.id))
        (keep (λ d. allowed (get_config (config_key fw_id d.id) configs))
          (definitions cat db fw_id))
      ++ rest
    else rest

abbrev pub id_of : ResolvedControl → String × String
id_of c = (c.framework_id, c.control_id)

module _ (configs : List ControlConfiguration) (fw_id : String) where
  resolve_control-id :
      (d : ControlDefinition)
      → ((allowed (get_config (config_key fw_id d.id) configs) ≡ false)
          × (resolve_control configs fw_id d ≡ none))
        ⊎ ((c : ResolvedControl) × (allowed (get_config (config_key fw_id d.id) configs) ≡ true)
            × (resolve_control configs fw_id d ≡ some c)
            × (id_of c ≡ (fw_id, d.id)))
  resolve_control-id d = elim (Option-cases (get_config (config_key fw_id d.id) configs)) [
    | inl absent ↦ rw (resolve_control, absent) (inr (_, refl, refl, refl))
    | inr (config, found) ↦ elim (Bool-cases config.enabled) [
      | inl on ↦ rw (resolve_control, found, on) (inr (_, refl, refl, refl))
      | inr off ↦ rw (resolve_control, found, off) (inl (refl, refl))
    ]
  ]

  resolve_all-ids :
      (ds : List ControlDefinition)
      → map id_of (resolve_all configs fw_id ds)
        ≡ map
            (λ d. (fw_id, d.id))
            (keep (λ d. allowed (get_config (config_key fw_id d.id) configs)) ds)
  resolve_all-ids [] = refl
  resolve_all-ids (d ∷ ds) = elim (resolve_control-id d) [
    | inl (off, gone) ↦ rw (resolve_all, gone, off, resolve_all-ids ds)
    | inr (c, on, made, same) ↦ rw (resolve_all, made, on, same, resolve_all-ids ds)
  ]

module _ (cat : Catalogue) (db : ComplianceDb) (configs : List ControlConfiguration) where
  resolve_frameworks-ids :
      (fws : List String)
      → map id_of (resolve_frameworks cat db configs fws) ≡ active_ids cat db configs fws
  resolve_frameworks-ids [] = refl
  resolve_frameworks-ids (fw_id ∷ fws) =
      elim (Bool-cases (framework_enabled fw_id db.framework_configs)) [
        | inr off ↦ rw (off, resolve_frameworks-ids fws)
        | inl on ↦
            let built_in = cat.framework_controls fw_id in
            let custom = keep (λ d. str_eq d.framework_id fw_id) db.custom_controls in
            let rest = resolve_frameworks cat db configs fws in
            let allow : ControlDefinition → Bool =
              λ d. allowed (get_config (config_key fw_id d.id) configs) in
            let name : ControlDefinition → String × String = λ d. (fw_id, d.id) in
            rw
              (
                on,
                map-append id_of (resolve_all configs fw_id built_in)
                    (resolve_all configs fw_id custom ++ rest),
                map-append id_of (resolve_all configs fw_id custom) rest,
                resolve_all-ids configs fw_id built_in,
                resolve_all-ids configs fw_id custom,
                resolve_frameworks-ids fws,
                keep-append allow built_in custom,
                map-append name (keep allow built_in) (keep allow custom),
              )
              (sym (
                append_assoc (map name (keep allow built_in)) (map name (keep allow custom))
                  (active_ids cat db configs fws)))
      ]

-- A run for a framework, or for all, evaluates exactly the built-in and the tenant's own controls of
-- the enabled frameworks among them, in their order, that no configuration read for it disables.
pub resolve_active_controls-ids :
    (cat : Catalogue) (db : ComplianceDb) (framework_id : Option String)
    → map id_of (resolve_active_controls cat db framework_id)
      ≡ active_ids cat db
          (get_control_configs db framework_id)
          (selected cat.framework_ids framework_id)
unfolding resolve_active_controls
resolve_active_controls-ids cat db framework_id =
    resolve_frameworks-ids cat db (get_control_configs db framework_id)
      (selected cat.framework_ids framework_id)
