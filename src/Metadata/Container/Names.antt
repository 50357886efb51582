-- ===== src/Metadata/Container/Names.antt =====
-- The names of a container in UTF-16LE, and what `utf16_name` of src/metadata/container.rs makes of
-- them.
use open_sdbl.Prelude.{
  ℕ, suc, ◌+◌, ◌-◌, ◌*◌, ◌/◌, ◌%◌, ◌≤◌, ◌<◌, ◌≡◌, ◌⊎◌, refl, sym, ap, ◌∙◌, true, false, List, [],
  ◌∷◌, ◌++◌, some, ltb, ◌==◌, if◌then◌else◌, if_elim, length, take, append-nil, All, arith,
}
use open_sdbl.Prelude.Result.{ok}
use open_sdbl.Metadata.Container.Utf16.{
  units, terminator, is_high, is_low, joined, prepend, from_utf16, name_end, decoded_name,
  utf16_name,
}

-- A scalar value of Unicode other than the null character
abbrev pub IsNameChar : ℕ → Type 0
IsNameChar c = (1 ≤ c) × ((c < 0xd800) ⊎ ((0xe000 ≤ c) × (c < 0x110000)))

-- `char::encode_utf16`
unfoldable pub encode_utf16 : List ℕ → List ℕ
encode_utf16 [] = []
encode_utf16 (c ∷ cs) =
    if ltb c 0x10000
    then c ∷ encode_utf16 cs
    else (0xd800 + (c - 0x10000) / 0x400) ∷ ((0xdc00 + (c - 0x10000) % 0x400) ∷ encode_utf16 cs)

-- The units in little-endian order
unfoldable pub le_units : List ℕ → List ℕ
le_units [] = []
le_units (u ∷ us) = (u % 256) ∷ ((u / 256) ∷ le_units us)

from_utf16-single :
    (c : ℕ) (us : List ℕ)
    → is_high c ≡ false
    → is_low c ≡ false
    → from_utf16 (c ∷ us) ≡ prepend c (from_utf16 us)
unfolding from_utf16
from_utf16-single c [] h k = rw (h, k) refl
from_utf16-single c (v ∷ vs) h k = rw (h, k) refl

from_utf16-pair :
    (high low : ℕ) (us : List ℕ)
    → is_high high ≡ true
    → is_low low ≡ true
    → from_utf16 (high ∷ (low ∷ us)) ≡ prepend (joined high low) (from_utf16 us)
unfolding from_utf16
from_utf16-pair high low us h k = rw (h, k) refl

from_utf16-encode_utf16 : (cs : List ℕ) → All IsNameChar cs → from_utf16 (encode_utf16 cs) ≡ some cs
unfolding encode_utf16 from_utf16
from_utf16-encode_utf16 [] h = refl
from_utf16-encode_utf16 (c ∷ cs) (h, hs) =
    let rest = from_utf16-encode_utf16 cs hs in
    let n = c - 0x10000 in
    let high = 0xd800 + n / 0x400 in
    let low = 0xdc00 + n % 0x400 in
    if_elim (λ us. from_utf16 us ≡ some (c ∷ cs)) (ltb c 0x10000) (c ∷ encode_utf16 cs)
      (high ∷ (low ∷ encode_utf16 cs))
      (λ small.
        let not_high : is_high c ≡ false = ground arith in
        let not_low : is_low c ≡ false = ground arith in
        from_utf16-single c (encode_utf16 cs) not_high not_low ∙ ap (prepend c) rest)
      (λ large.
        let from : 0x10000 ≤ c = ground arith in
        let below : c < 0x110000 = ground arith in
        let first : is_high high ≡ true = ground arith in
        let second : is_low low ≡ true = ground arith in
        let whole : joined high low ≡ c = omega arith in
        from_utf16-pair high low (encode_utf16 cs) first second
        ∙ ap (prepend (joined high low)) rest
        ∙ ap (λ d. some (d ∷ cs)) whole)

-- A unit that is not the terminator
abbrev IsUnit : ℕ → Type 0
IsUnit u = (1 ≤ u) × (u < 65536)

encode_utf16-IsUnit : (cs : List ℕ) → All IsNameChar cs → All IsUnit (encode_utf16 cs)
unfolding encode_utf16
encode_utf16-IsUnit [] h = tt
encode_utf16-IsUnit (c ∷ cs) (h, hs) =
    let rest = encode_utf16-IsUnit cs hs in
    let n = c - 0x10000 in
    if_elim (All IsUnit) (ltb c 0x10000) (c ∷ encode_utf16 cs)
      ((0xd800 + n / 0x400) ∷ ((0xdc00 + n % 0x400) ∷ encode_utf16 cs))
      (λ small. let low : c < 0x10000 = ground arith in ((h.0, low), rest))
      (λ large.
        let from : 0x10000 ≤ c = ground arith in
        let below : c < 0x110000 = ground arith in
        ((omega arith, omega arith), ((omega arith, omega arith), rest)))

units-le_units : (us tail : List ℕ) → All IsUnit us → units (le_units us ++ tail) ≡ us ++ units tail
unfolding le_units
units-le_units [] tail h = refl
units-le_units (u ∷ us) tail (h, hs) =
    let whole : u % 256 + u / 256 * 256 ≡ u = omega arith in
    ap (λ v. v ∷ units (le_units us ++ tail)) whole ∙ ap (λ l. u ∷ l) (units-le_units us tail hs)

terminator_after :
    (us tail : List ℕ) → All IsUnit us → terminator (us ++ 0 ∷ tail) ≡ some (length us)
terminator_after [] tail h = refl
terminator_after (u ∷ us) tail (h, hs) =
    let more : (u == 0) ≡ false = ground arith in rw (more, terminator_after us tail hs) refl

take-le_units : (us tail : List ℕ) → take (length us * 2) (le_units us ++ tail) ≡ le_units us
unfolding le_units
take-le_units [] tail = refl
take-le_units (u ∷ us) tail =
    let two : length (u ∷ us) * 2 ≡ suc (suc (length us * 2)) = omega arith in
    rw two (ap (λ l. (u % 256) ∷ ((u / 256) ∷ l)) (take-le_units us tail))

-- A name without null characters is read back from its UTF-16LE text with a terminator, whatever
-- stands behind it.
pub utf16_name-encode_utf16 :
    (name padding : List ℕ)
    → All IsNameChar name
    → utf16_name (le_units (encode_utf16 name) ++ 0 ∷ (0 ∷ padding)) ≡ ok name
unfolding utf16_name
utf16_name-encode_utf16 name padding h =
    let us = encode_utf16 name in
    let bytes = le_units us ++ 0 ∷ (0 ∷ padding) in
    let all = encode_utf16-IsUnit name h in
    let ends : terminator (units bytes) ≡ some (length us) =
      ap terminator (units-le_units us (0 ∷ (0 ∷ padding)) all)
      ∙ terminator_after us (units padding) all in
    let own : units (le_units us) ≡ us =
      ap units (sym (append-nil (le_units us))) ∙ units-le_units us [] all ∙ append-nil us in
    ap (λ e. decoded_name (from_utf16 (units (take (name_end bytes e * 2) bytes)))) ends
    ∙ ap (λ l. decoded_name (from_utf16 (units l))) (take-le_units us (0 ∷ (0 ∷ padding)))
    ∙ ap (λ l. decoded_name (from_utf16 l)) own
    ∙ ap decoded_name (from_utf16-encode_utf16 name h)
