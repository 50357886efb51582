-- ===== src/Metadata/Inflate/BitReader/Bounds.antt =====
-- Every read moves the position forward, within the input, and gives a value below its width.
use open_sdbl.Prelude.{
  ℕ, ◌+◌, ◌*◌, ◌/◌, ◌%◌, ◌^◌, ◌≤◌, ◌<◌, ◌≡◌, refl, ap, ◌∙◌, Bool, true, false, arith, if◌then◌else◌,
  length, take, drop, length-take, length-drop, get_elem?, get_elem?-lt, get_elem?-eq_some, List,
  some,
}
use open_sdbl.Prelude.Bits.{bit_and-ones}
use open_sdbl.Prelude.Result.{
  Result, ok, err, stuck, Ensures, holds, rejected, Ensures-ok, Ensures-ne-stuck, Ensures-intro,
}
use open_sdbl.Metadata.Error.{MetadataError}
use open_sdbl.Metadata.Inflate.BitReader.{
  BitReader, Reads, ◌>>=◌, window_from, peek_bits_padded, read_bits, advance, read_byte, read_u16,
  read_bytes, align_byte, table_at,
}
use native.Mathlib.Nat.{mod-lt, one-le-pow}

abbrev pub IsInside : BitReader → Type 0
IsInside r = r.bit ≤ length r.input * 8

-- From `r` to `r'` at least `n` bits were taken.
pub record Moved (n : ℕ) (r r' : BitReader) : Type 0 where
  pub same_input : r'.input ≡ r.input
  pub forward : r.bit + n ≤ r'.bit
  pub inside : IsInside r'

pub Moved-trans :
    {m n : ℕ} {r r' r'' : BitReader} → Moved m r r' → Moved n r' r'' → Moved (m + n) r r''
Moved-trans a b = record {
  same_input = b.same_input ∙ a.same_input;
  forward = omega arith;
  inside = b.inside;
}

-- What `m` ensures of its value and reader is what `f` may suppose.
pub Ensures->>= :
    {A B : Type 0} {P : A × BitReader → Type 0} {Q : B × BitReader → Type 0} (m : Reads A)
    (f : A → Reads B) {r : BitReader}
    → Ensures P (m r)
    → ((a : A) (r' : BitReader) → P (a, r') → Ensures Q (f a r'))
    → Ensures Q ((m >>= f) r)
unfolding ◌>>=◌
Ensures->>= {A} {P = P} {Q = Q} m f {r} h k = step (m r) h
  where
    step :
        (x : Result MetadataError (A × BitReader))
        → Ensures P x
        → Ensures Q (elim x [ ok (a, r') ↦ f a r' | err e ↦ err e | stuck ↦ stuck ])
    step (ok (a, r')) g = k a r' (Ensures-ok g refl)
    step (err e) g = rejected
    step stuck g = absurd (Ensures-ne-stuck g refl)

pub peek_bits_padded-lt : (r : BitReader) (count : ℕ) → peek_bits_padded r count < 2 ^ count
unfolding peek_bits_padded
peek_bits_padded-lt r count =
    let window = window_from 0 0 (take 3 (drop (r.bit / 8) r.input)) / 2 ^ (r.bit % 8) in
    let pos = one-le-pow count 2 (omega arith) in
    let low = mod-lt window pos in ground (arith, bit_and-ones count window, low)

pub read_bits-Moved :
    (n : ℕ) (r : BitReader)
    → IsInside r
    → Ensures (λ (v, r'). Moved n r r' × (v < 2 ^ n)) (read_bits n r)
unfolding read_bits
read_bits-Moved n r h =
    Ensures-intro _ (ground arith)
      λ (v, r') e. (ground arith, ground (arith, peek_bits_padded-lt r n))

pub advance-Moved :
    (n : ℕ) (r : BitReader) → IsInside r → Ensures (λ (_, r'). Moved n r r') (advance n r)
unfolding advance
advance-Moved n r h = Ensures-intro _ (ground arith) λ (_, r') e. ground arith

pub read_byte-Moved : (r : BitReader) → IsInside r → Ensures (λ (_, r'). Moved 8 r r') (read_byte r)
unfolding read_byte
read_byte-Moved r h =
    Ensures-intro _ (ground arith)
      λ (b, r') e. ground (arith, get_elem?-lt r.input (r.bit / 8) {a = b})

pub read_u16-Moved : (r : BitReader) → IsInside r → Ensures (λ (_, r'). Moved 16 r r') (read_u16 r)
unfolding read_u16
read_u16-Moved r h = Ensures->>= read_byte _ (read_byte-Moved r h) λ low r' a.
    Ensures->>= read_byte _ (read_byte-Moved r' a.inside) λ high r'' b. holds (Moved-trans a b)

pub read_bytes-Moved :
    (n : ℕ) (r : BitReader)
    → IsInside r
    → Ensures (λ (bytes, r'). Moved 0 r r' × (length bytes ≡ n)) (read_bytes n r)
unfolding read_bytes
read_bytes-Moved n r h = Ensures-intro _ (ground arith) λ (bytes, r') e. (
  ground arith,
  ground (arith, length-take n (drop (r.bit / 8) r.input), length-drop (r.bit / 8) r.input),
)

pub align_byte-Moved : (r : BitReader) → IsInside r → Moved 0 r (align_byte r)
align_byte-Moved r h = record { same_input = refl; forward = omega arith; inside = omega arith }

-- A test in front of two readers.
pub Ensures-if :
    {A : Type 0} {P : A × BitReader → Type 0} (b : Bool) (m k : Reads A) {r : BitReader}
    → (b ≡ true → Ensures P (m r))
    → (b ≡ false → Ensures P (k r))
    → Ensures P ((if b then m else k) r)
Ensures-if true m k hm hk = hm refl
Ensures-if false m k hm hk = hk refl

pub Moved-refl : {r : BitReader} → IsInside r → Moved 0 r r
Moved-refl h = record { same_input = refl; forward = omega arith; inside = h }

-- What a move of `m` bits and then of `n` says of any fewer.
pub Moved-then :
    {l m n : ℕ} {r r' r'' : BitReader} → Moved m r r' → Moved n r' r'' → l ≤ m + n → Moved l r r''
Moved-then a b le = record {
  same_input = b.same_input ∙ a.same_input;
  forward = omega arith;
  inside = b.inside;
}

pub Moved-length : {n : ℕ} {r r' : BitReader} → Moved n r r' → length r'.input ≡ length r.input
Moved-length m = ap length m.same_input

-- An index inside a table finds its entry, and leaves the reader where it is.
pub table_at-Moved :
    (table : List ℕ) (index : ℕ) (r : BitReader)
    → IsInside r
    → index < length table
    → Ensures (λ (v, r'). Moved 0 r r' × (get_elem? table index ≡ some v)) (table_at table index r)
unfolding table_at
table_at-Moved table index r h lt =
    let (a, found) = get_elem?-eq_some table index lt in
    Ensures-intro _ (ground arith) λ (v, r') e. (ground arith, ground arith)
