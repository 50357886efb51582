-- ===== src/Names.antt =====
-- src/names.rs: comparison of names up to case, and the key of a name in a map.
pub mod Key
mod Tests
use open_sdbl.Prelude.{ℕ, ◌<◌, ◌≡◌, Bool, true, ◌&&◌, List, [], ◌∷◌, ◌++◌, ltb, if◌then◌else◌}
use open_sdbl.Lexer.Lookup.{chars_eq}
use open_sdbl.Metadata.Guid.{lowercase_byte, lowercase}

-- The Unicode table behind `char::to_lowercase`, which agrees with ASCII on ASCII.
pub record CaseTable : Type 0 where
  pub to_lowercase : ℕ → List ℕ
  pub to_lowercase_ascii : (c : ℕ) → c < 0x80 → to_lowercase c ≡ lowercase_byte c ∷ []

-- `str::is_ascii`
abbrev pub is_ascii : List ℕ → Bool
is_ascii [] = true
is_ascii (c ∷ cs) = ltb c 0x80 && is_ascii cs

module _ (table : CaseTable) where
  -- `chars().flat_map(char::to_lowercase)`
  abbrev pub to_lower : List ℕ → List ℕ
  to_lower [] = []
  to_lower (c ∷ cs) = table.to_lowercase c ++ to_lower cs

  unfoldable pub names_equal : List ℕ → List ℕ → Bool
  names_equal left right =
      if is_ascii left && is_ascii right
      then chars_eq (lowercase left) (lowercase right)
      else chars_eq (to_lower left) (to_lower right)

  unfoldable pub folded_name : List ℕ → List ℕ
  folded_name value = if is_ascii value then lowercase value else to_lower value
