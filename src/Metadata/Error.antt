-- ===== src/Metadata/Error.antt =====
-- `MetadataError` of src/metadata/mod.rs.
use open_sdbl.Prelude.{ℕ, String, List, ◌++◌, Option, none, some, codes, decimal}

-- The text of a message: fixed, or `format!` with one number between two pieces or with a text
-- behind one.
pub data Message : Type 0 where
  literal : String → Message
  formatted : String → ℕ → String → Message
  quoting : String → List ℕ → Message

pub data MetadataErrorKind : Type 0 where
  deflate utf8 serialization guid schema resolution : MetadataErrorKind

pub data MetadataOffsetUnit : Type 0 where
  byte bit : MetadataOffsetUnit

pub record MetadataError : Type 0 where
  pub kind : MetadataErrorKind
  pub message : Message
  pub offset : Option ℕ

-- `MetadataError::at`
abbrev pub error_at : MetadataErrorKind → ℕ → Message → MetadataError
error_at kind offset message = record { kind = kind; message = message; offset = some offset }

-- `MetadataError::deflate`, `::serialization` and `::utf8`
abbrev pub deflate_error : ℕ → Message → MetadataError
deflate_error = error_at deflate

abbrev pub serialization_error : ℕ → Message → MetadataError
serialization_error = error_at serialization

abbrev pub utf8_error : ℕ → Message → MetadataError
utf8_error = error_at utf8

abbrev pub kind_unit : MetadataErrorKind → Option MetadataOffsetUnit
kind_unit deflate = some bit
kind_unit utf8 = some byte
kind_unit serialization = some byte
kind_unit guid = none
kind_unit schema = none
kind_unit resolution = none

-- `MetadataError::offset_unit`
abbrev pub offset_unit : MetadataError → Option MetadataOffsetUnit
offset_unit e = kind_unit e.kind

-- `MetadataError::new`
abbrev pub new_error : MetadataErrorKind → Message → MetadataError
new_error kind message = record { kind = kind; message = message; offset = none }

-- `Display`
abbrev message_text : Message → List ℕ
message_text (literal s) = codes s
message_text (formatted s n t) = codes s ++ (decimal n ++ codes t)
message_text (quoting s text) = codes s ++ text

unfoldable pub display_error : MetadataError → List ℕ
display_error e = elim e.offset [
  | some offset ↦
      codes "metadata offset " ++ (decimal offset ++ (codes ": " ++ message_text e.message))
  | none ↦ message_text e.message
]
