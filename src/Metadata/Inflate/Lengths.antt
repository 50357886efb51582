-- ===== src/Metadata/Inflate/Lengths.antt =====
-- The code lengths of a block's two trees, from src/metadata/deflate.rs: `fixed_lengths`,
-- `dynamic_lengths` and what it calls.
pub mod Shape
use open_sdbl.Prelude.{
  ℕ, zero, suc, ◌+◌, Bool, false, List, [], ◌∷◌, ◌++◌, Option, none, some, ltb, leb, ◌==◌,
  if◌then◌else◌, length, get_or, set, take, drop, replicate,
}
use open_sdbl.Prelude.Result.{Result, ok, err, stuck}
use open_sdbl.Metadata.Error.{MetadataError, literal, deflate_error}
use open_sdbl.Metadata.Inflate.BitReader.{BitReader, Reads, pure, ◌>>=◌, fail, table_at, read_bits}
use open_sdbl.Metadata.Inflate.Huffman.{Huffman, HuffmanEntry, build, decode}

unfoldable pub fixed_lengths : List ℕ × List ℕ
fixed_lengths =
    (replicate 144 8 ++ (replicate 112 9 ++ (replicate 24 7 ++ replicate 8 8)), replicate 32 5)

abbrev repeat_error : ℕ → MetadataError
repeat_error position =
    deflate_error position (literal "Huffman length repeat exceeds declared tree size")

unfoldable pub append_repeated : List ℕ → ℕ → ℕ → ℕ → Reads (List ℕ)
append_repeated lengths value repeat total r =
    if ltb total (length lengths + repeat)
    then err (repeat_error r.bit)
    else ok (lengths ++ replicate repeat value, r)

-- `lengths.last()`
abbrev pub last : List ℕ → Option ℕ
last [] = none
last (l ∷ []) = some l
last (_ ∷ (l ∷ ls)) = last (l ∷ ls)

repeat_previous : Option ℕ → List ℕ → ℕ → Reads (List ℕ)
unfolding append_repeated
repeat_previous none lengths total = fail "repeat code has no previous Huffman length"
repeat_previous (some previous) lengths total = do
  extra ← read_bits 2
  append_repeated lengths previous (extra + 3) total

unfoldable pub append_dynamic_length : ℕ → List ℕ → ℕ → Reads (List ℕ)
unfolding repeat_previous append_repeated
append_dynamic_length symbol lengths total =
    if leb symbol 15
    then pure (lengths ++ symbol ∷ [])
    else if symbol == 16
    then repeat_previous (last lengths) lengths total
    else if symbol == 17
    then (do extra ← read_bits 3; append_repeated lengths 0 (extra + 3) total)
    else if symbol == 18
    then (do extra ← read_bits 7; append_repeated lengths 0 (extra + 11) total)
    else fail "invalid code-length symbol"

-- `ORDER`
abbrev pub code_order : List ℕ
code_order = 16 ∷ 17 ∷ 18 ∷ 0 ∷ 8 ∷ 7 ∷ 9 ∷ 6 ∷ 10 ∷ 5 ∷ 11 ∷ 4 ∷ 12 ∷ 3 ∷ 13 ∷ 2 ∷ 14 ∷ 1 ∷ 15 ∷ []

-- `lengths[place] = value`, a panic past the end
unfoldable pub write_at : List ℕ → ℕ → ℕ → Reads (List ℕ)
write_at lengths place value r =
    if ltb place (length lengths) then ok (set lengths place value, r) else stuck

-- `for index in 0..code_count { code_lengths[ORDER[index]] = bits.read_bits(3)? }`, by the rounds
-- that are left and from `index` on
unfoldable pub read_code_lengths : ℕ → ℕ → List ℕ → Reads (List ℕ)
read_code_lengths zero index code_lengths = pure code_lengths
read_code_lengths (suc left) index code_lengths = do
  code_length ← read_bits 3
  place ← table_at code_order index
  written ← write_at code_lengths place code_length
  read_code_lengths left (suc index) written

-- `while lengths.len() < total`
unfoldable pub read_lengths : ℕ → Huffman → List HuffmanEntry → ℕ → List ℕ → Reads (List ℕ)
unfolding append_dynamic_length
read_lengths zero tree table total lengths r =
    if ltb (length lengths) total then stuck else ok (lengths, r)
read_lengths (suc fuel) tree table total lengths r =
    let more : Result MetadataError (List ℕ × BitReader) =
      (do
        symbol ← decode tree table
        lengths' ← append_dynamic_length symbol lengths total
        read_lengths fuel tree table total lengths')
        r in
    if ltb (length lengths) total then more else ok (lengths, r)

-- A build outside the reader's state, at its position.
unfoldable pub build_at :
    List ℕ → List HuffmanEntry → Bool → Reads (Option Huffman × List HuffmanEntry)
build_at lengths table allow_empty r = elim (build lengths r.bit table allow_empty) [
  | ok built ↦ ok (built, r)
  | err e ↦ err e
  | stuck ↦ stuck
]

-- `.expect(…)`: no tree is a panic.
unfoldable pub expect_tree : Option Huffman → Reads Huffman
expect_tree none r = stuck
expect_tree (some tree) r = ok (tree, r)

-- `lengths.split_off(literal_count)`, behind the check of the end-of-block symbol
unfoldable pub split_lengths : ℕ → List ℕ → Reads (List ℕ × List ℕ)
split_lengths literal_count lengths r =
    if get_or lengths 256 0 == 0
    then fail "literal Huffman tree has no end-of-block symbol" r
    else ok ((take literal_count lengths, drop literal_count lengths), r)

-- The caller's table is only a buffer, cleared before use. A round of the loop appends a length at
-- least, so `total` rounds are enough.
unfoldable pub dynamic_lengths : Reads (List ℕ × List ℕ)
unfolding read_code_lengths read_lengths
dynamic_lengths = do
  literal_extra ← read_bits 5
  distance_extra ← read_bits 5
  code_extra ← read_bits 4
  let literal_count = literal_extra + 257
  let total = literal_count + (distance_extra + 1)
  code_lengths ← read_code_lengths (code_extra + 4) 0 (replicate 19 0)
  (tree?, table) ← build_at code_lengths [] false
  tree ← expect_tree tree?
  lengths ← read_lengths total tree table total []
  split_lengths literal_count lengths
