-- ===== src/Compliance/Frameworks/Controls.antt =====
-- What holds of every built-in control (backend/domains/compliance/frameworks).
use sentora.Prelude.{
  All, Bool, Bool-cases, List, String, [], false, inl, inr, none, not, refl, some, str_eq,
  str_eq_iff, subst, true, ◌&&◌, ◌∷◌, ◌≡◌, ◌≢◌,
}
use sentora.Collections.{Distinct}
use sentora.Compliance.Checks.Registry.{is_valid_check_type}
use sentora.Compliance.Entities.{ControlDefinition}
use sentora.Compliance.Frameworks.Bsi.{bsi_controls}
use sentora.Compliance.Frameworks.CisV8.{cis_v8_controls}
use sentora.Compliance.Frameworks.Dora.{dora_controls}
use sentora.Compliance.Frameworks.Hipaa.{hipaa_controls}
use sentora.Compliance.Frameworks.Iso27001.{iso27001_controls}
use sentora.Compliance.Frameworks.Lookup.{
  add_controls-found, collect_controls-flat, flat, flat-All, id_of,
}
use sentora.Compliance.Frameworks.Nis2.{nis2_controls}
use sentora.Compliance.Frameworks.NistCsf.{nist_csf_controls}
use sentora.Compliance.Frameworks.PciDss.{pci_dss_controls}
use sentora.Compliance.Frameworks.Registry.{
  all_controls, controls_by_id, get_control, get_framework_controls,
}
use sentora.Compliance.Frameworks.Soc2.{soc2_controls}
use sentora.Dicts.{Dict, get}

every : {A : Type 0} → (A → Bool) → List A → Bool
every p [] = true
every p (x ∷ xs) = p x && every p xs

every-All : {A : Type 0} (p : A → Bool) (xs : List A) → every p xs ≡ true → All (λ x. p x ≡ true) xs
unfolding every
every-All p [] e = tt
every-All p (x ∷ xs) e = elim (Bool-cases (p x)) [
  | inl y ↦ let rest : every p xs ≡ true = rw y at e in (y, every-All p xs rest)
  | inr n ↦ let wrong : false ≡ true = rw n at e in cc
]

-- No element has the key of a later one.
apart : List ControlDefinition → Bool
unfolding every
apart [] = true
apart (c ∷ cs) = every (λ d. not (str_eq d.id c.id)) cs && apart cs

apart-Distinct : (cs : List ControlDefinition) → apart cs ≡ true → Distinct id_of cs
unfolding apart every
apart-Distinct [] e = tt
apart-Distinct (c ∷ cs) e = elim (Bool-cases (every (λ d. not (str_eq d.id c.id)) cs)) [
  | inr n ↦ let wrong : false ≡ true = rw n at e in cc
  | inl y ↦
      let rest : apart cs ≡ true = rw y at e in
      (others cs (every-All _ cs y), apart-Distinct cs rest)
]
  where
    others :
        (ds : List ControlDefinition)
        → All (λ d. not (str_eq d.id c.id) ≡ true) ds
        → All (λ d. id_of d ≢ id_of c) ds
    others [] h = tt
    others (d ∷ ds) h = (
      (λ q.
          let same : str_eq d.id c.id ≡ true = (str_eq_iff d.id c.id).1 q in
          let wrong : false ≡ true = rw same at h.0 in cc),
      others ds h.1,
    )

sound : String → ControlDefinition → Bool
sound k c = str_eq c.framework_id k && is_valid_check_type c.check_type

tables_sound : Dict (List ControlDefinition) → Bool
unfolding sound every
tables_sound [] = true
tables_sound ((k, cs) ∷ rest) = every (sound k) cs && tables_sound rest

built_in_apart : apart (flat all_controls) ≡ true
unfolding apart every soc2_controls pci_dss_controls hipaa_controls bsi_controls dora_controls
    iso27001_controls nist_csf_controls nis2_controls cis_v8_controls
built_in_apart = refl

built_in_sound : tables_sound all_controls ≡ true
unfolding tables_sound sound every is_valid_check_type soc2_controls pci_dss_controls hipaa_controls
    bsi_controls dora_controls iso27001_controls nist_csf_controls nis2_controls cis_v8_controls
built_in_sound = refl

tables_sound-get :
    (t : Dict (List ControlDefinition)) (k : String)
    → tables_sound t ≡ true
    → All (λ c. sound k c ≡ true) (elim (get k t) [ none ↦ [] | some cs ↦ cs ])
unfolding tables_sound
tables_sound-get [] k e = tt
tables_sound-get ((j, cs) ∷ rest) k e = elim (Bool-cases (every (sound j) cs)) [
  | inr n ↦ let wrong : false ≡ true = rw n at e in cc
  | inl y ↦
      let later : tables_sound rest ≡ true = rw y at e in
      elim (Bool-cases (str_eq j k)) [
        | inl same ↦ rw same (
            subst (λ i. All (λ c. sound i c ≡ true) cs) ((str_eq_iff j k).0 same)
              (every-All (sound j) cs y))
        | inr other ↦ rw other (tables_sound-get rest k later)
      ]
]

All-both {κ μ ν} :
    {P : ControlDefinition → Type κ} {Q : ControlDefinition → Type μ}
    {R : ControlDefinition → Type ν} (f : (c : ControlDefinition) → P c → Q c → R c)
    (cs : List ControlDefinition)
    → All P cs
    → All Q cs
    → All R cs
All-both f [] p q = tt
All-both f (c ∷ cs) p q = (f c p.0 q.0, All-both f cs p.1 q.1)

-- A control of a framework is found by its id, names the framework, and has a registered check type.
pub record IsRegistered (k : String) (c : ControlDefinition) : Type 0 where
  pub found : get_control c.id ≡ some c
  pub framework : c.framework_id ≡ k
  pub check_valid : is_valid_check_type c.check_type ≡ true

sound-IsRegistered :
    (k : String) (c : ControlDefinition)
    → get_control c.id ≡ some c
    → sound k c ≡ true
    → IsRegistered k c
unfolding sound
sound-IsRegistered k c f e = elim (Bool-cases (str_eq c.framework_id k)) [
  | inr n ↦ let wrong : false ≡ true = rw n at e in cc
  | inl y ↦ elim (Bool-cases (is_valid_check_type c.check_type)) [
    | inr n ↦ let wrong : false ≡ true = rw (y, n) at e in cc
    | inl v ↦ record { found = f; framework = (str_eq_iff c.framework_id k).0 y; check_valid = v }
  ]
]

all_found : All (λ c. get_control c.id ≡ some c) (flat all_controls)
unfolding get_control controls_by_id
all_found =
    rw (collect_controls-flat all_controls []) (
      add_controls-found (flat all_controls) [] (apart-Distinct (flat all_controls) built_in_apart))

-- Every control that a framework lists is found by its id, so that no two controls of any frameworks
-- share one; it names the framework that lists it, and its check type has an executor.
pub get_framework_controls-IsRegistered :
    (framework_id : String) → All (IsRegistered framework_id) (get_framework_controls framework_id)
unfolding get_framework_controls
get_framework_controls-IsRegistered k =
    All-both (sound-IsRegistered k) (get_framework_controls k)
      (flat-All (λ c. get_control c.id ≡ some c) all_controls k all_found)
      (tables_sound-get all_controls k built_in_sound)
