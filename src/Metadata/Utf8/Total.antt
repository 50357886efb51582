-- ===== src/Metadata/Utf8/Total.antt =====
-- The decoder of UTF-8 ends on every byte string.
use open_sdbl.Prelude.{
  ℕ, zero, suc, ◌+◌, ◌*◌, ◌%◌, get_or, ◌≤◌, ◌≢◌, Bool, ◌&&◌, List, [], ◌∷◌, Option, none, some, ltb,
  if◌then◌else◌, if_elim, length, drop, length-drop, arith,
}
use open_sdbl.Prelude.Result.{Result, ok, stuck, >>=-ne-stuck}
use open_sdbl.Metadata.Utf8.{
  within, continues, second_of_three, second_of_four, first_char, char_or_error, decode_from,
  from_utf8,
}

-- A character that is there takes a byte at least.
data Wide : Option (ℕ × ℕ) → Type 0 where
  no_char : Wide none
  wide : {c width : ℕ} → 1 ≤ width → Wide (some (c, width))

Wide-tests :
    (b1 b2 b3 b4 : Bool) (c1 c2 c3 c4 : ℕ)
    → Wide (
        if b1
        then some (c1, 1)
        else if b2
        then some (c2, 2)
        else if b3
        then some (c3, 3)
        else if b4
        then some (c4, 4)
        else none)
Wide-tests b1 b2 b3 b4 c1 c2 c3 c4 =
    if_elim Wide b1 _ _ (λ _. wide (omega arith))
      λ _.
        if_elim Wide b2 _ _ (λ _. wide (omega arith))
          λ _.
            if_elim Wide b3 _ _ (λ _. wide (omega arith))
              λ _. if_elim Wide b4 _ _ (λ _. wide (omega arith)) λ _. no_char

first_char-Wide : (bytes : List ℕ) → Wide (first_char bytes)
unfolding first_char
first_char-Wide bytes =
    let b0 = get_or bytes 0 0 in
    let b1 = get_or bytes 1 0 in
    let b2 = get_or bytes 2 0 in
    let b3 = get_or bytes 3 0 in
    Wide-tests (ltb b0 0x80) (within 0xc2 0xdf b0 && continues b1)
      (within 0xe0 0xef b0 && second_of_three b0 b1 && continues b2)
      (within 0xf0 0xf4 b0 && second_of_four b0 b1 && continues b2 && continues b3) b0
      (b0 % 32 * 64 + b1 % 64) (b0 % 16 * 4096 + b1 % 64 * 64 + b2 % 64)
      (b0 % 8 * 262144 + b1 % 64 * 4096 + b2 % 64 * 64 + b3 % 64)

char_or_error-ne-stuck :
    (offset : ℕ) (more : ℕ × ℕ → Result ℕ (List ℕ)) {first : Option (ℕ × ℕ)}
    → Wide first
    → ((c width : ℕ) → 1 ≤ width → more (c, width) ≢ stuck)
    → char_or_error offset more first ≢ stuck
char_or_error-ne-stuck offset more no_char k = λ p. cc
char_or_error-ne-stuck offset more (wide {c} {width} h) k = k c width h

decode_from-ne-stuck :
    (fuel offset : ℕ) (bytes : List ℕ) → length bytes ≤ fuel → decode_from fuel offset bytes ≢ stuck
unfolding decode_from
decode_from-ne-stuck zero offset [] h = λ p. cc
decode_from-ne-stuck (suc fuel) offset [] h = λ p. cc
decode_from-ne-stuck zero offset (b ∷ bs) h = absurd (omega arith)
decode_from-ne-stuck (suc fuel) offset (b ∷ bs) h =
    char_or_error-ne-stuck offset _ (first_char-Wide (b ∷ bs)) λ c width long.
      >>=-ne-stuck (decode_from fuel (offset + width) (drop width (b ∷ bs))) (λ cs. ok (c ∷ cs))
        (decode_from-ne-stuck fuel (offset + width) (drop width (b ∷ bs))
          (omega (arith, length-drop width (b ∷ bs))))
        (λ _ _ p. cc)

pub from_utf8-ne-stuck : (bytes : List ℕ) → from_utf8 bytes ≢ stuck
unfolding from_utf8
from_utf8-ne-stuck bytes = decode_from-ne-stuck (length bytes) 0 bytes (omega arith)
