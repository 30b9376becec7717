-- ===== src/Documents.antt =====
-- The documents of the database, as the repositories read and write them: a field name and a value
-- each. A reader gives `none` where the code would raise a KeyError, and for a value of another type
-- than the field's, which the code never writes.
use sentora.Prelude.{
  Bool, List, Option, String, [], if◌then◌else◌, none, refl, some, str_eq, ℕ, ◌≡◌, ◌∷◌,
}

pub data Value : Type 0 where
  null : Value
  text : String → Value
  number : ℕ → Value
  flag : Bool → Value
  texts : List String → Value

abbrev pub Document : Type 0
Document = List (String × Value)

abbrev pub field : String → Document → Option Value
field k [] = none
field k ((name, v) ∷ doc) = if str_eq k name then some v else field k doc

infixl 5 ◌>>=◌
abbrev pub ◌>>=◌ {ℓ κ} : {A : Type ℓ} {B : Type κ} → Option A → (A → Option B) → Option B
none >>= f = none
some a >>= f = f a

-- `doc[k]`
abbrev pub read_text : Option Value → Option String
read_text (some (text s)) = some s
read_text v = none

abbrev pub read_number : Option Value → Option ℕ
read_number (some (number n)) = some n
read_number v = none

-- `doc.get(k)`
abbrev pub get_text : Option Value → Option (Option String)
get_text none = some none
get_text (some null) = some none
get_text (some (text s)) = some (some s)
get_text v = none

abbrev pub get_number : Option Value → Option (Option ℕ)
get_number none = some none
get_number (some null) = some none
get_number (some (number n)) = some (some n)
get_number v = none

-- `doc.get(k, default)`
abbrev pub text_or : String → Option Value → Option String
text_or d none = some d
text_or d v = read_text v

abbrev pub number_or : ℕ → Option Value → Option ℕ
number_or d none = some d
number_or d v = read_number v

abbrev pub flag_or : Bool → Option Value → Option Bool
flag_or d none = some d
flag_or d (some (flag b)) = some b
flag_or d v = none

abbrev pub texts_or : List String → Option Value → Option (List String)
texts_or d none = some d
texts_or d (some (texts ss)) = some ss
texts_or d v = none

-- What is stored for `str | None` and for `datetime | None`.
abbrev pub text? : Option String → Value
text? none = null
text? (some s) = text s

abbrev pub number? : Option ℕ → Value
number? none = null
number? (some n) = number n

pub get_text-text? : (o : Option String) → get_text (some (text? o)) ≡ some o
get_text-text? none = refl
get_text-text? (some s) = refl

pub get_number-number? : (o : Option ℕ) → get_number (some (number? o)) ≡ some o
get_number-number? none = refl
get_number-number? (some n) = refl
