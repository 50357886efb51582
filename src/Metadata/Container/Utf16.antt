-- ===== src/Metadata/Container/Utf16.antt =====
-- `utf16_name` of src/metadata/container.rs: a name of the table, as it stands in its description.
use open_sdbl.Prelude.{
  ℕ, suc, ◌+◌, ◌-◌, ◌*◌, ◌/◌, Bool, ◌&&◌, List, [], ◌∷◌, Option, none, some, leb, ◌==◌,
  if◌then◌else◌, length, take,
}
use open_sdbl.Prelude.Result.{Result, ok, err}
use open_sdbl.Metadata.Error.{MetadataError, serialization, literal, new_error}

-- `chunks_exact(2)` with `u16::from_le_bytes`
abbrev pub units : List ℕ → List ℕ
units [] = []
units (a ∷ []) = []
units (a ∷ (b ∷ bytes)) = (a + b * 256) ∷ units bytes

-- `position` of the terminator
abbrev pub terminator : List ℕ → Option ℕ
terminator [] = none
terminator (u ∷ us) =
    if u == 0 then some 0 else (elim (terminator us) [ none ↦ none | some i ↦ some (suc i) ])

abbrev pub is_high : ℕ → Bool
is_high u = leb 0xd800 u && leb u 0xdbff

abbrev pub is_low : ℕ → Bool
is_low u = leb 0xdc00 u && leb u 0xdfff

abbrev pub joined : ℕ → ℕ → ℕ
joined high low = 0x10000 + (high - 0xd800) * 0x400 + (low - 0xdc00)

abbrev pub prepend : ℕ → Option (List ℕ) → Option (List ℕ)
prepend c none = none
prepend c (some cs) = some (c ∷ cs)

-- `String::from_utf16`: a surrogate that is not half of a pair is an error.
unfoldable pub from_utf16 : List ℕ → Option (List ℕ)
from_utf16 [] = some []
from_utf16 (u ∷ []) = if is_high u then none else if is_low u then none else some (u ∷ [])
from_utf16 (u ∷ (v ∷ vs)) =
    let single = from_utf16 (v ∷ vs) in
    let pair = from_utf16 vs in
    if is_high u
    then (if is_low v then prepend (joined u v) pair else none)
    else if is_low u
    then none
    else prepend u single

abbrev pub name_end : List ℕ → Option ℕ → ℕ
name_end bytes none = length bytes / 2
name_end bytes (some end) = end

abbrev pub decoded_name : Option (List ℕ) → Result MetadataError (List ℕ)
decoded_name none = err (new_error serialization (literal "имя файла не UTF-16LE"))
decoded_name (some name) = ok name

unfoldable pub utf16_name : List ℕ → Result MetadataError (List ℕ)
utf16_name bytes =
    let end = name_end bytes (terminator (units bytes)) in
    decoded_name (from_utf16 (units (take (end * 2) bytes)))
