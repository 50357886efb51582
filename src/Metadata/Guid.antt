-- ===== src/Metadata/Guid.antt =====
-- `Guid` of src/metadata/guid.rs: its text, its bytes in the order of the text, and the physical
-- order of the tables. A text is the list of its bytes.
pub mod Canonical
pub mod Shape
pub mod Physical
mod Tests
use open_sdbl.Prelude.{
  ℕ, zero, suc, ◌+◌, ◌-◌, ◌*◌, ◌<◌, ◌/◌, ◌%◌, Bool, true, false, ◌&&◌, ◌||◌, List, [], ◌∷◌, ◌++◌,
  Option, none, some, leb, ◌==◌, if◌then◌else◌, codes, length, take, drop,
}
use open_sdbl.Prelude.Result.{Result, ok, err, stuck, ◌>>=◌}
use open_sdbl.Lexer.Chars.{is_ascii_hexdigit}
use open_sdbl.Lexer.Lookup.{chars_eq}

-- The canonical lower-case text
pub record Guid : Type 0 where
  pub text : List ℕ

-- `Guid::NIL` and `is_nil`
abbrev pub nil_text : List ℕ
nil_text = codes "00000000-0000-0000-0000-000000000000"

unfoldable pub is_nil_guid : Guid → Bool
unfolding chars_eq
is_nil_guid g = chars_eq g.text nil_text

abbrev pub is_separator : ℕ → Bool
is_separator index = index == 8 || index == 13 || index == 18 || index == 23

unfoldable pub valid_from : ℕ → List ℕ → Bool
valid_from index [] = true
valid_from index (c ∷ cs) =
    (if is_separator index then c == b'-' else is_ascii_hexdigit c) && valid_from (suc index) cs

-- `to_ascii_lowercase`
abbrev pub lowercase_byte : ℕ → ℕ
lowercase_byte c = if leb b'A' c && leb c b'Z' then c + 32 else c

abbrev pub lowercase : List ℕ → List ℕ
lowercase [] = []
lowercase (c ∷ cs) = lowercase_byte c ∷ lowercase cs

-- `from_str`; its error says that the whole text is no GUID.
unfoldable pub from_str : List ℕ → Result (List ℕ) Guid
from_str value =
    if length value == 36 && valid_from 0 value
    then ok (record { text = lowercase value })
    else err value

-- A digit that is none is unreachable in a validated GUID.
abbrev pub nibble : ℕ → Result ⊥ ℕ
nibble b =
    if leb b'0' b && leb b b'9'
    then ok (b - b'0')
    else if leb b'a' b && leb b b'f'
    then ok (b - b'a' + 10)
    else stuck

-- The loop of `to_bytes`: the high nibble that waits for its low one, and the bytes so far.
abbrev pub Halves : Type 0
Halves = Option ℕ × List ℕ

abbrev pub add_nibble : Halves → ℕ → Halves
add_nibble (none, bytes) n = (some n, bytes)
add_nibble (some high, bytes) n = (none, bytes ++ ((high * 16 + n) ∷ []))

abbrev pub add_byte : Halves → ℕ → Result ⊥ Halves
add_byte s b = if b == b'-' then ok s else (nibble b >>= λ n. ok (add_nibble s n))

unfoldable pub bytes_from : Halves → List ℕ → Result ⊥ (List ℕ)
bytes_from s [] = ok s.1
bytes_from s (b ∷ bs) = add_byte s b >>= λ s'. bytes_from s' bs

unfoldable pub to_bytes : Guid → Result ⊥ (List ℕ)
to_bytes g = bytes_from (none, []) g.text

-- The fields of 4, 2, 2, 2 and 6 bytes in the order of the tables
abbrev pub physical_order : List ℕ → List ℕ
physical_order bytes =
    take 2 (drop 8 bytes)
    ++ take 6 (drop 10 bytes)
    ++ take 2 (drop 6 bytes)
    ++ take 2 (drop 4 bytes)
    ++ take 4 bytes

unfoldable pub to_1c_bytes : Guid → Result ⊥ (List ℕ)
to_1c_bytes g = to_bytes g >>= λ bytes. ok (physical_order bytes)
