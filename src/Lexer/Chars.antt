-- ===== src/Lexer/Chars.antt =====
-- The characters that src/lexer.rs asks the standard library about. A character is its code point
-- and a text the list of them; byte offsets count their UTF-8 lengths.
use open_sdbl.Prelude.{
  ℕ, ◌+◌, ◌<◌, ◌≡◌, Bool, false, true, ◌&&◌, ◌||◌, List, [], ◌∷◌, leb, ltb, ◌==◌, if◌then◌else◌,
}

-- `char::len_utf8`
abbrev pub len_utf8 : ℕ → ℕ
len_utf8 c = if ltb c 0x80 then 1 else if ltb c 0x800 then 2 else if ltb c 0x10000 then 3 else 4

-- `str::len`
abbrev pub byte_length : List ℕ → ℕ
byte_length [] = 0
byte_length (c ∷ cs) = len_utf8 c + byte_length cs

abbrev pub within : ℕ → ℕ → ℕ → Bool
within lo hi c = leb lo c && leb c hi

-- `char::is_whitespace`: the property White_Space of Unicode
unfoldable pub is_whitespace : ℕ → Bool
is_whitespace c =
    within 0x09 0x0d c
    || c == 0x20
    || c == 0x85
    || c == 0xa0
    || c == 0x1680
    || within 0x2000 0x200a c
    || within 0x2028 0x2029 c
    || c == 0x202f
    || c == 0x205f
    || c == 0x3000

unfoldable pub is_ascii_digit : ℕ → Bool
is_ascii_digit = within b'0' b'9'

unfoldable pub is_ascii_hexdigit : ℕ → Bool
is_ascii_hexdigit c = within b'0' b'9' c || within b'A' b'F' c || within b'a' b'f' c

-- The Unicode tables behind `char::is_alphabetic`, `is_alphanumeric` and `to_uppercase`, with the
-- documented facts that the lexer rests on: ASCII is classified as in ASCII, and white space is
-- neither a letter nor a digit.
pub record CharTables : Type 0 where
  pub is_alphabetic : ℕ → Bool
  pub is_alphanumeric : ℕ → Bool
  pub to_uppercase : ℕ → List ℕ
  pub alphanumeric_ascii :
      (c : ℕ)
      → c < 0x80
      → is_alphanumeric c ≡ (within b'0' b'9' c || within b'A' b'Z' c || within b'a' b'z' c)
  pub alphabetic_ascii :
      (c : ℕ) → c < 0x80 → is_alphabetic c ≡ (within b'A' b'Z' c || within b'a' b'z' c)
  pub whitespace_not_alphanumeric : (c : ℕ) → is_whitespace c ≡ true → is_alphanumeric c ≡ false

module _ (tables : CharTables) where
  open tables use {is_alphabetic, is_alphanumeric}

  unfoldable pub is_identifier_start : ℕ → Bool
  is_identifier_start c = c == b'_' || is_alphabetic c

  unfoldable pub is_identifier_continue : ℕ → Bool
  is_identifier_continue c = c == b'_' || is_alphanumeric c
