-- ===== src/Eol/Entities.antt =====
-- backend/domains/eol/entities.py, and the documents that the matching reads and writes. A date is a
-- number of days, and a confidence a fraction: those of the code are decimals and quotients of small
-- numbers, whose doubles are ordered as the fractions are.
use sentora.Prelude.{Bool, List, Option, String, leb, ltb, ℕ, ◌*◌}

pub record Ratio : Type 0 where
  pub num : ℕ
  pub den : ℕ

abbrev pub ratio_lt : Ratio → Ratio → Bool
ratio_lt a b = ltb (a.num * b.den) (b.num * a.den)

abbrev pub ratio_le : Ratio → Ratio → Bool
ratio_le a b = leb (a.num * b.den) (b.num * a.den)

pub record EolCycle : Type 0 where
  pub cycle : String
  pub support_end : Option ℕ
  pub eol_date : Option ℕ
  pub is_eol : Bool
  pub is_security_only : Bool

pub record EolMatch : Type 0 where
  pub eol_product_id : String
  pub matched_cycle : String
  pub match_source : String
  pub match_confidence : Ratio
  pub is_eol : Bool
  pub eol_date : Option ℕ
  pub is_security_only : Bool
  pub support_end : Option ℕ

-- What is stored for an application: the product that it is taken for.
pub record MatchDoc : Type 0 where
  pub eol_product_id : String
  pub match_source : String
  pub match_confidence : Ratio

-- A document of `app_summaries`; a missing field is `none`.
pub record AppSummary : Type 0 where
  pub normalized_name : String
  pub display_name : Option String
  pub category : Option String
  pub eol_match : Option MatchDoc

-- A document of `library_entries`, with the patterns of its markers.
pub record LibraryEntry : Type 0 where
  pub source : String
  pub upstream_id : String
  pub patterns : List String

-- A release cycle as it is stored, its dates as texts.
pub record CycleDoc : Type 0 where
  pub cycle : String
  pub support_end : Option String
  pub eol_date : Option String

pub record ProductDoc : Type 0 where
  pub product_id : String
  pub name : Option String
  pub cycles : List CycleDoc

pub record EolDb : Type 0 where
  pub eol_products : List ProductDoc
  pub name_mappings : List (String × String)
  pub library_entries : List LibraryEntry
  pub app_summaries : List AppSummary

-- What Python's library gives: `str.lower`, `str.split()`, `str.strip("*")`, `str.replace`, `str.partition(":")` with
-- `none` where there is no colon, the components of the first number that
-- `re.compile(r"(\d+(?:\.\d+)*)")` finds, and the texts without what `re.sub` removes.
pub record Texts : Type 0 where
  pub lower : String → String
  pub split : String → List String
  pub strip_stars : String → String
  pub replace : String → String → String → String
  pub partition : String → Option (String × String)
  pub search_version : String → Option (List String)
  pub without_versions : String → String
  pub without_parentheses : String → String
  pub parse_date : String → Option ℕ
