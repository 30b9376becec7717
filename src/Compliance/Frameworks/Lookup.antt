-- ===== src/Compliance/Frameworks/Lookup.antt =====
-- What the lookup by id of backend/domains/compliance/frameworks/registry.py holds.
use sentora.Prelude.{
  All, Bool-cases, List, String, [], inl, inr, none, refl, some, str_eq, sym, ◌++◌, ◌∙◌, ◌∷◌, ◌≡◌,
  ◌≢◌,
}
use sentora.Collections.{Distinct}
use sentora.Compliance.Entities.{ControlDefinition}
use sentora.Compliance.Frameworks.Registry.{add_controls, collect_controls}
use sentora.Dicts.{Dict, get, get-set, set, str-ne}
use text.Mathlib.TextPositions.{eq_refl}

abbrev pub id_of : ControlDefinition → String
id_of c = c.id

get-add_controls :
    (k : String) (cs : List ControlDefinition) (d : Dict ControlDefinition)
    → All (λ c. id_of c ≢ k) cs
    → get k (add_controls cs d) ≡ get k d
get-add_controls k [] d h = refl
get-add_controls k (c ∷ cs) d h =
    get-add_controls k cs (set c.id c d) h.1 ∙ (get-set k c.id c d ∙ rw (str-ne c.id k h.0) refl)

-- Controls with ids of their own are all found.
pub add_controls-found :
    (cs : List ControlDefinition) (d : Dict ControlDefinition)
    → Distinct id_of cs
    → All (λ c. get c.id (add_controls cs d) ≡ some c) cs
add_controls-found [] d h = tt
add_controls-found (c ∷ cs) d h = (
  get-add_controls c.id cs (set c.id c d) h.0 ∙ (get-set c.id c.id c d ∙ rw (eq_refl c.id) refl),
  add_controls-found cs (set c.id c d) h.1,
)

abbrev pub flat : Dict (List ControlDefinition) → List ControlDefinition
flat [] = []
flat ((k, cs) ∷ rest) = cs ++ flat rest

add_controls-append :
    (cs ds : List ControlDefinition) (d : Dict ControlDefinition)
    → add_controls (cs ++ ds) d ≡ add_controls ds (add_controls cs d)
add_controls-append [] ds d = refl
add_controls-append (c ∷ cs) ds d = add_controls-append cs ds (set c.id c d)

pub collect_controls-flat :
    (t : Dict (List ControlDefinition)) (d : Dict ControlDefinition)
    → collect_controls t d ≡ add_controls (flat t) d
collect_controls-flat [] d = refl
collect_controls-flat ((k, cs) ∷ rest) d =
    collect_controls-flat rest (add_controls cs d) ∙ sym (add_controls-append cs (flat rest) d)

pub All-append {ℓ κ} :
    {A : Type ℓ} (P : A → Type κ) (xs ys : List A) → All P (xs ++ ys) → All P xs × All P ys
All-append P [] ys h = (tt, h)
All-append P (x ∷ xs) ys h = let (l, r) = All-append P xs ys h.1 in ((h.0, l), r)

-- What holds of all controls holds of those of each framework.
pub flat-All {κ} :
    (P : ControlDefinition → Type κ) (t : Dict (List ControlDefinition)) (k : String)
    → All P (flat t)
    → All P (elim (get k t) [ none ↦ [] | some cs ↦ cs ])
flat-All P [] k h = tt
flat-All P ((j, cs) ∷ rest) k h = elim (Bool-cases (str_eq j k)) [
  | inl y ↦ rw y (All-append P cs (flat rest) h).0
  | inr n ↦ rw n (flat-All P rest k (All-append P cs (flat rest) h).1)
]
