-- ===== src/Metadata/Utf8/Encode.antt =====
-- The UTF-8 bytes of a text, and that decoding gives the text back.
use open_sdbl.Prelude.{
  ℕ, zero, suc, ◌+◌, ◌*◌, ◌/◌, ◌%◌, ◌≤◌, ◌<◌, ◌≡◌, ◌⊎◌, refl, ap, ◌∙◌, true, false, ◌&&◌, List, [],
  ◌∷◌, ◌++◌, some, ltb, if◌then◌else◌, if_elim, length, drop, length-drop, All, arith,
}
use open_sdbl.Prelude.Result.{Result, ok, ◌>>=◌}
use open_sdbl.Metadata.Utf8.{
  within, continues, second_of_three, second_of_four, first_char, char_or_error, decode_from,
  from_utf8,
}

-- `str::as_bytes`
abbrev pub encode_char : ℕ → List ℕ
encode_char c =
    if ltb c 0x80
    then c ∷ []
    else if ltb c 0x800
    then (0xc0 + c / 64) ∷ ((0x80 + c % 64) ∷ [])
    else if ltb c 0x10000
    then (0xe0 + c / 4096) ∷ ((0x80 + c / 64 % 64) ∷ ((0x80 + c % 64) ∷ []))
    else (0xf0 + c / 262144)
      ∷ ((0x80 + c / 4096 % 64) ∷ ((0x80 + c / 64 % 64) ∷ ((0x80 + c % 64) ∷ [])))

unfoldable pub as_bytes : List ℕ → List ℕ
as_bytes [] = []
as_bytes (c ∷ cs) = encode_char c ++ as_bytes cs

-- A scalar value of Unicode
abbrev pub IsScalar : ℕ → Type 0
IsScalar c = (c < 0xd800) ⊎ ((0xe000 ≤ c) × (c < 0x110000))

first_char-one : (c : ℕ) (rest : List ℕ) → c < 0x80 → first_char (c ∷ rest) ≡ some (c, 1)
unfolding first_char
first_char-one c rest h = let low : ltb c 0x80 ≡ true = ground arith in rw low refl

first_char-two :
    (c : ℕ) (rest : List ℕ)
    → 0x80 ≤ c
    → c < 0x800
    → first_char ((0xc0 + c / 64) ∷ ((0x80 + c % 64) ∷ rest)) ≡ some (c, 2)
unfolding first_char
first_char-two c rest h k =
    let b0 = 0xc0 + c / 64 in
    let b1 = 0x80 + c % 64 in
    let not_one : ltb b0 0x80 ≡ false = ground arith in
    let two : (within 0xc2 0xdf b0 && continues b1) ≡ true = ground arith in
    let value : b0 % 32 * 64 + b1 % 64 ≡ c = omega arith in rw (not_one, two, value) refl

first_char-three :
    (c : ℕ) (rest : List ℕ)
    → IsScalar c
    → 0x800 ≤ c
    → c < 0x10000
    → first_char ((0xe0 + c / 4096) ∷ ((0x80 + c / 64 % 64) ∷ ((0x80 + c % 64) ∷ rest)))
      ≡ some (c, 3)
unfolding first_char
first_char-three c rest s h k =
    let b0 = 0xe0 + c / 4096 in
    let b1 = 0x80 + c / 64 % 64 in
    let b2 = 0x80 + c % 64 in
    let not_one : ltb b0 0x80 ≡ false = ground arith in
    let not_two : (within 0xc2 0xdf b0 && continues b1) ≡ false = ground arith in
    let three : (within 0xe0 0xef b0 && second_of_three b0 b1 && continues b2) ≡ true =
      ground arith in
    let value : b0 % 16 * 4096 + b1 % 64 * 64 + b2 % 64 ≡ c = omega arith in
    rw (not_one, not_two, three, value) refl

first_char-four :
    (c : ℕ) (rest : List ℕ)
    → 0x10000 ≤ c
    → c < 0x110000
    → first_char (
        (0xf0 + c / 262144)
        ∷ ((0x80 + c / 4096 % 64) ∷ ((0x80 + c / 64 % 64) ∷ ((0x80 + c % 64) ∷ rest))))
      ≡ some (c, 4)
unfolding first_char
first_char-four c rest h k =
    let b0 = 0xf0 + c / 262144 in
    let b1 = 0x80 + c / 4096 % 64 in
    let b2 = 0x80 + c / 64 % 64 in
    let b3 = 0x80 + c % 64 in
    let not_one : ltb b0 0x80 ≡ false = ground arith in
    let not_two : (within 0xc2 0xdf b0 && continues b1) ≡ false = ground arith in
    let not_three : (within 0xe0 0xef b0 && second_of_three b0 b1 && continues b2) ≡ false =
      ground arith in
    let four : (within 0xf0 0xf4 b0 && second_of_four b0 b1 && continues b2 && continues b3)
        ≡ true =
      ground arith in
    let value : b0 % 8 * 262144 + b1 % 64 * 4096 + b2 % 64 * 64 + b3 % 64 ≡ c = omega arith in
    rw (not_one, not_two, not_three, four, value) refl

-- Decoding in front of a text whose decoding is known
unfoldable Decodes : List ℕ → List ℕ → Type 0
Decodes bytes cs = (fuel offset : ℕ) → length bytes ≤ fuel → decode_from fuel offset bytes ≡ ok cs

Decodes-nil : Decodes [] []
unfolding Decodes decode_from
Decodes-nil zero offset h = refl
Decodes-nil (suc fuel) offset h = refl

Decodes-cons :
    (b c width : ℕ) (bs rest cs : List ℕ)
    → first_char (b ∷ bs) ≡ some (c, width)
    → drop width (b ∷ bs) ≡ rest
    → 1 ≤ width
    → Decodes rest cs
    → Decodes (b ∷ bs) (c ∷ cs)
unfolding Decodes decode_from
Decodes-cons b c width bs rest cs first behind wide later zero offset h = absurd (omega arith)
Decodes-cons b c width bs rest cs first behind wide later (suc fuel) offset h =
    let size = length-drop width (b ∷ bs) in
    let same = ap length behind in
    let more : ℕ × ℕ → Result ℕ (List ℕ) =
      λ (d, w). decode_from fuel (offset + w) (drop w (b ∷ bs)) >>= λ ds. ok (d ∷ ds) in
    ap (char_or_error offset more) first
    ∙ ap (λ l. decode_from fuel (offset + width) l >>= λ ds. ok (c ∷ ds)) behind
    ∙ ap (λ r. r >>= λ ds. ok (c ∷ ds)) (later fuel (offset + width) (omega arith))

as_bytes-Decodes : (cs : List ℕ) → All IsScalar cs → Decodes (as_bytes cs) cs
unfolding as_bytes
as_bytes-Decodes [] h = Decodes-nil
as_bytes-Decodes (c ∷ cs) (h, hs) =
    let rest = as_bytes cs in
    let later = as_bytes-Decodes cs hs in
    let P : List ℕ → Type 0 = λ l. Decodes (l ++ rest) (c ∷ cs) in
    if_elim P (ltb c 0x80) _ _
      (λ e.
        let low : c < 0x80 = ground arith in
        Decodes-cons c c 1 rest rest cs (first_char-one c rest low) refl (omega arith) later)
      λ e1.
        if_elim P (ltb c 0x800) _ _
          (λ e2.
            let from : 0x80 ≤ c = ground arith in
            let to : c < 0x800 = ground arith in
            Decodes-cons (0xc0 + c / 64) c 2 _ rest cs (first_char-two c rest from to) refl
              (omega arith) later)
          λ e2.
            let above : 0x800 ≤ c = ground arith in
            if_elim P (ltb c 0x10000) _ _
              (λ e3.
                let to : c < 0x10000 = ground arith in
                Decodes-cons (0xe0 + c / 4096) c 3 _ rest cs (first_char-three c rest h above to)
                  refl (omega arith) later)
              λ e3.
                let from : 0x10000 ≤ c = ground arith in
                let to : c < 0x110000 = ground arith in
                Decodes-cons (0xf0 + c / 262144) c 4 _ rest cs (first_char-four c rest from to) refl
                  (omega arith) later

-- The UTF-8 bytes of a text of scalar values decode to the text.
pub from_utf8-as_bytes : (cs : List ℕ) → All IsScalar cs → from_utf8 (as_bytes cs) ≡ ok cs
unfolding from_utf8 Decodes
from_utf8-as_bytes cs h = as_bytes-Decodes cs h (length (as_bytes cs)) 0 (omega arith)
