-- ===== src/Access/Error.antt =====
-- `RestrictionError` of src/access.rs.
use open_sdbl.Prelude.{ℕ, List, ◌++◌, String, codes, decimal}

pub data RestrictionError : Type 0 where
  missing_parameter message unknown_template syntax : List ℕ → RestrictionError
  syntax_at : List ℕ → ℕ → RestrictionError
  unsupported : List ℕ → RestrictionError

-- `Display`
unfoldable pub display_restriction : RestrictionError → List ℕ
display_restriction (RestrictionError.missing_parameter name) =
    codes "session parameter \"" ++ name ++ codes "\" has no value"
display_restriction (RestrictionError.message text) = text
display_restriction (RestrictionError.unknown_template name) =
    codes "restriction template \"" ++ name ++ codes "\" is not defined"
display_restriction (RestrictionError.syntax text) = codes "restriction syntax: " ++ text
display_restriction (RestrictionError.syntax_at text offset) =
    codes "restriction syntax at byte " ++ decimal offset ++ codes ": " ++ text
display_restriction (RestrictionError.unsupported text) = codes "restriction: " ++ text

abbrev pub syntax_error : String → RestrictionError
syntax_error text = RestrictionError.syntax (codes text)
