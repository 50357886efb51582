-- ===== src/Metadata/Inflate/BitReader.antt =====
-- `BitReader` of src/metadata/deflate.rs. A byte slice is a list of numbers below 256, the bit
-- position counts from the lowest bit of the first byte, and `&mut self` is the state of `Reads`.
pub mod Bounds
use open_sdbl.Prelude.{
  ℕ, ◌+◌, ◌-◌, ◌*◌, ◌/◌, ◌%◌, ◌^◌, min, bit_and, bit_or, String, Bool, not, List, [], ◌∷◌, none,
  some, ltb, leb, ◌==◌, if◌then◌else◌, length, get_elem?, take, drop,
}
use open_sdbl.Prelude.Result.{Result, ok, err, stuck}
use open_sdbl.Metadata.Error.{MetadataError, literal, deflate_error}

pub record BitReader : Type 0 where
  pub input : List ℕ
  pub bit : ℕ

-- A method with `&mut self` that returns `Result<A, MetadataError>`.
abbrev pub Reads : Type 0 → Type 0
Reads A = BitReader → Result MetadataError (A × BitReader)

abbrev pub pure : {A : Type 0} → A → Reads A
pure a r = ok (a, r)

infixl 5 ◌>>=◌ ◌>>◌
-- `m?` and then `f`. It stays shut in what uses it: proofs go through a rule for it.
unfoldable pub ◌>>=◌ : {A B : Type 0} → Reads A → (A → Reads B) → Reads B
◌>>=◌ m f r = elim (m r) [ ok (a, r') ↦ f a r' | err e ↦ err e | stuck ↦ stuck ]

abbrev pub ◌>>◌ : {B : Type 0} → Reads (Unit {0}) → Reads B → Reads B
m >> k = m >>= λ _. k

abbrev pub reader_error : BitReader → String → MetadataError
reader_error r message = deflate_error r.bit (literal message)

-- `Err(bits.error(message))`
abbrev pub fail : {A : Type 0} → String → Reads A
fail message r = err (reader_error r message)

-- `usize::saturating_mul` is the `min`, `saturating_sub` the `-`.
abbrev pub remaining_bits : BitReader → ℕ
remaining_bits r = min (length r.input * 8) (2 ^ 64 - 1) - r.bit

-- The loop over the bytes of the 32-bit window.
window_from : ℕ → ℕ → List ℕ → ℕ
window_from index window [] = window
window_from index window (byte ∷ bytes) =
    window_from (index + 1) (bit_or window (byte * 2 ^ (index * 8) % 2 ^ 32)) bytes

unfoldable pub peek_bits_padded : BitReader → ℕ → ℕ
unfolding window_from
peek_bits_padded r count =
    let window = window_from 0 0 (take 3 (drop (r.bit / 8) r.input)) in
    if count == 0 then 0 else bit_and (window / 2 ^ (r.bit % 8)) (2 ^ count - 1)

abbrev pub truncated : String
truncated = "truncated raw-DEFLATE stream"

unfoldable pub advance : ℕ → Reads (Unit {0})
advance count r =
    if ltb (remaining_bits r) count
    then fail truncated r
    else ok (tt, record r { bit = r.bit + count })

unfoldable pub read_bits : ℕ → Reads ℕ
read_bits count r =
    if ltb (remaining_bits r) count
    then fail truncated r
    else ok (peek_bits_padded r count, record r { bit = r.bit + count })

-- `div_ceil(8) * 8`
abbrev pub align_byte : BitReader → BitReader
align_byte r = record r { bit = (r.bit + 7) / 8 * 8 }

abbrev pub unaligned : String
unaligned = "unaligned DEFLATE byte read"

unfoldable pub read_byte : Reads ℕ
read_byte r =
    if not (r.bit % 8 == 0) then fail unaligned r else elim (get_elem? r.input (r.bit / 8)) [
      | none ↦ fail truncated r
      | some byte ↦ ok (byte, record r { bit = r.bit + 8 })
    ]

-- `u16::from_le_bytes`
unfoldable pub read_u16 : Reads ℕ
unfolding read_byte
read_u16 = do low ← read_byte; high ← read_byte; pure (low + high * 256)

-- `checked_add` fails past the largest `usize`.
unfoldable pub read_bytes : ℕ → Reads (List ℕ)
read_bytes count r =
    let start = r.bit / 8 in
    let last = start + count in
    if not (r.bit % 8 == 0)
    then fail unaligned r
    else if not (ltb last (2 ^ 64))
    then fail truncated r
    else if not (leb last (length r.input))
    then fail truncated r
    else ok (take count (drop start r.input), record r { bit = r.bit + count * 8 })

-- `table[index]`, a panic past the end of the table
unfoldable pub table_at : List ℕ → ℕ → Reads ℕ
table_at table index r = elim (get_elem? table index) [ none ↦ stuck | some entry ↦ ok (entry, r) ]
