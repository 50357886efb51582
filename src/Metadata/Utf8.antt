-- ===== src/Metadata/Utf8.antt =====
-- `str::from_utf8` as src/metadata/value.rs calls it: the characters of well-formed UTF-8, or the
-- offset up to which the bytes are valid.
pub mod Total
pub mod Encode
use open_sdbl.Prelude.{
  ℕ, zero, suc, ◌+◌, ◌*◌, ◌%◌, Bool, ◌&&◌, List, [], ◌∷◌, Option, none, some, leb, ltb, ◌==◌,
  if◌then◌else◌, get_or, drop, length,
}
use open_sdbl.Prelude.Result.{Result, ok, err, stuck, ◌>>=◌}

abbrev pub within : ℕ → ℕ → ℕ → Bool
within lo hi b = leb lo b && leb b hi

abbrev pub continues : ℕ → Bool
continues = within 0x80 0xbf

-- The second byte of three leaves out the overlong forms and the surrogates; that of four the
-- overlong forms and what lies above the last code point.
abbrev pub second_of_three : ℕ → ℕ → Bool
second_of_three b0 b1 =
    if b0 == 0xe0
    then within 0xa0 0xbf b1
    else if b0 == 0xed
    then within 0x80 0x9f b1
    else continues b1

abbrev pub second_of_four : ℕ → ℕ → Bool
second_of_four b0 b1 =
    if b0 == 0xf0
    then within 0x90 0xbf b1
    else if b0 == 0xf4
    then within 0x80 0x8f b1
    else continues b1

-- The first character and its width; a byte that is missing continues nothing.
unfoldable pub first_char : List ℕ → Option (ℕ × ℕ)
first_char bytes =
    let b0 = get_or bytes 0 0 in
    let b1 = get_or bytes 1 0 in
    let b2 = get_or bytes 2 0 in
    let b3 = get_or bytes 3 0 in
    if ltb b0 0x80
    then some (b0, 1)
    else if within 0xc2 0xdf b0 && continues b1
    then some (b0 % 32 * 64 + b1 % 64, 2)
    else if within 0xe0 0xef b0 && second_of_three b0 b1 && continues b2
    then some (b0 % 16 * 4096 + b1 % 64 * 64 + b2 % 64, 3)
    else if within 0xf0 0xf4 b0 && second_of_four b0 b1 && continues b2 && continues b3
    then some (b0 % 8 * 262144 + b1 % 64 * 4096 + b2 % 64 * 64 + b3 % 64, 4)
    else none

abbrev pub char_or_error : ℕ → (ℕ × ℕ → Result ℕ (List ℕ)) → Option (ℕ × ℕ) → Result ℕ (List ℕ)
char_or_error offset more none = err offset
char_or_error offset more (some first) = more first

-- A round takes a byte at least.
unfoldable pub decode_from : ℕ → ℕ → List ℕ → Result ℕ (List ℕ)
decode_from zero offset [] = ok []
decode_from (suc fuel) offset [] = ok []
decode_from zero offset (b ∷ bs) = stuck
decode_from (suc fuel) offset (b ∷ bs) =
    char_or_error offset
      (λ (c, width). decode_from fuel (offset + width) (drop width (b ∷ bs)) >>= λ cs. ok (c ∷ cs))
      (first_char (b ∷ bs))

unfoldable pub from_utf8 : List ℕ → Result ℕ (List ℕ)
from_utf8 bytes = decode_from (length bytes) 0 bytes
