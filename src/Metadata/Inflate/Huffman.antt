-- ===== src/Metadata/Inflate/Huffman.antt =====
-- `Huffman` of src/metadata/deflate.rs: the lookup table of a canonical code, indexed by the next
-- bits of the stream. Several trees share one table, each from its own `start`.
pub mod Shape
pub mod Kraft
use open_sdbl.Prelude.{
  ℕ, zero, suc, ◌+◌, ◌-◌, ◌*◌, ◌/◌, ◌%◌, ◌^◌, max, bit_and, bit_or, Bool, true, false, not, ◌&&◌,
  List, [], ◌∷◌, ◌++◌, Option, none, some, ltb, leb, ◌==◌, if◌then◌else◌, length, get_elem?, get_or,
  set, take, replicate,
}
use mathlib.Core.List.{tail}
use open_sdbl.Prelude.Result.{Result, ok, err, stuck, guard, ◌>>=◌, ◌>>◌}
use open_sdbl.Metadata.Error.{MetadataError, literal, deflate_error}
use open_sdbl.Metadata.Inflate.BitReader.{BitReader, Reads, fail, peek_bits_padded, advance}

pub record HuffmanEntry : Type 0 where
  pub bit_length : ℕ
  pub symbol : ℕ

pub record Huffman : Type 0 where
  pub start : ℕ
  pub table_length : ℕ
  pub maximum_length : ℕ

-- `HuffmanEntry::default()`
abbrev pub default_entry : HuffmanEntry
default_entry = record { bit_length = 0; symbol = 0 }

-- How many codes have each length, in 16-bit counters; `counts[length]` past their end is a panic.
unfoldable pub count_lengths : ℕ → List ℕ → List ℕ → Result MetadataError (List ℕ)
count_lengths position counts [] = ok counts
count_lengths position counts (l ∷ ls) =
    let counted = set counts l ((get_or counts l 0 + 1) % 2 ^ 16) in
    let rest = count_lengths position (if not (l == 0) then counted else counts) ls in
    if ltb 15 l
    then err (deflate_error position (literal "Huffman code is longer than 15 bits"))
    else if not (l == 0) && leb (length counts) l
    then stuck
    else rest

abbrev pub all_zero : List ℕ → Bool
all_zero [] = true
all_zero (c ∷ cs) = c == 0 && all_zero cs

-- `left` counts the codes still free at each length. It is checked to stay at 0 or above, and stays
-- at 2 ^ 15 or below, so the signed 32-bit variable is a natural number here.
unfoldable pub check_left : ℕ → ℕ → List ℕ → Result MetadataError (Unit {0})
check_left position left [] = ok tt
check_left position left (count ∷ counts) =
    let rest = check_left position (left * 2 - count) counts in
    if ltb (left * 2) count
    then err (deflate_error position (literal "oversubscribed Huffman tree"))
    else rest

-- The first code of each length: `code = (code + counts[bits - 1]) << 1` in 16 bits.
unfoldable pub first_codes : ℕ → List ℕ → List ℕ
first_codes code [] = []
first_codes code (count ∷ counts) =
    let next = (code + count) % 2 ^ 16 * 2 % 2 ^ 16 in next ∷ first_codes next counts

-- The rounds of `reverse_bits`, as many as are left.
unfoldable pub reverse_from : ℕ → ℕ → ℕ → ℕ
reverse_from zero reversed code = reversed
reverse_from (suc left) reversed code =
    reverse_from left (bit_or (reversed * 2 % 2 ^ 16) (bit_and code 1)) (code / 2)

unfoldable pub reverse_bits : ℕ → ℕ → ℕ
unfolding reverse_from
reverse_bits code bits = reverse_from bits 0 code

-- `for index in (index..table_length).step_by(step)`; the rounds are no more than `table_length`. A
-- write past the end of the table is a panic.
unfoldable pub fill_entries :
    ℕ → ℕ → ℕ → ℕ → ℕ → HuffmanEntry → List HuffmanEntry → Result ⊥ (List HuffmanEntry)
fill_entries zero start table_length step index entry table =
    if ltb index table_length then stuck else ok table
fill_entries (suc fuel) start table_length step index entry table =
    let written = set table (start + index) entry in
    let rest = fill_entries fuel start table_length step (index + step) entry written in
    if ltb index table_length
    then (if ltb (start + index) (length table) then rest else stuck)
    else ok table

-- A symbol of a length that is not 0: `next_code[length]`, a panic past its end, and the entries.
unfoldable pub place_code :
    ℕ → ℕ → ℕ → ℕ → List ℕ → List HuffmanEntry → Option ℕ → Result ⊥ (List ℕ × List HuffmanEntry)
unfolding fill_entries reverse_bits
place_code start table_length symbol l next_code table none = stuck
place_code start table_length symbol l next_code table (some canonical) =
    let entry : HuffmanEntry = record { bit_length = l; symbol = symbol % 2 ^ 16 } in
    fill_entries table_length start table_length (2 ^ l) (reverse_bits canonical l) entry table
    >>= λ filled. ok (set next_code l ((canonical + 1) % 2 ^ 16), filled)

-- A round of the loop: the next codes and the table behind it.
unfoldable pub place_symbol :
    ℕ → ℕ → ℕ → ℕ → List ℕ → List HuffmanEntry → Result ⊥ (List ℕ × List HuffmanEntry)
unfolding place_code
place_symbol start table_length symbol l next_code table =
    if l == 0
    then ok (next_code, table)
    else place_code start table_length symbol l next_code table (get_elem? next_code l)

-- `for (symbol, &length) in lengths.iter().enumerate()`, from `symbol` on.
unfoldable pub place_symbols :
    ℕ → ℕ → ℕ → List ℕ → List ℕ → List HuffmanEntry → Result ⊥ (List HuffmanEntry)
unfolding place_symbol
place_symbols start table_length symbol [] next_code table = ok table
place_symbols start table_length symbol (l ∷ ls) next_code table =
    place_symbol start table_length symbol l next_code table >>= λ (next_code', table').
    place_symbols start table_length (symbol + 1) ls next_code' table'

-- `lengths.iter().copied().max().unwrap_or_default()`
abbrev pub maximum : List ℕ → ℕ
maximum [] = 0
maximum (l ∷ ls) = max l (maximum ls)

-- The tree with the table that was filled for it
abbrev pub with_tree :
    Huffman
    → Result ⊥ (List HuffmanEntry)
    → Result MetadataError (Option Huffman × List HuffmanEntry)
with_tree tree (ok table) = ok (some tree, table)
with_tree tree (err e) = absurd e
with_tree tree stuck = stuck

-- The part of `build` behind its checks.
unfoldable pub build_table :
    List ℕ → List ℕ → List HuffmanEntry → Result MetadataError (Option Huffman × List HuffmanEntry)
unfolding place_symbols first_codes
build_table lengths counts table =
    let maximum_length = maximum lengths in
    let table_length = 2 ^ maximum_length in
    let start = length table in
    let resized = table ++ replicate table_length default_entry in
    let next_code = 0 ∷ first_codes 0 (take 15 counts) in
    with_tree
      (record { start = start; table_length = table_length; maximum_length = maximum_length })
      (place_symbols start table_length 0 lengths next_code resized)

-- What `build` does with the counts: the empty tree, or the check of `left` and the table.
unfoldable pub build_counted :
    List ℕ
    → ℕ
    → List HuffmanEntry
    → Bool
    → List ℕ
    → Result MetadataError (Option Huffman × List HuffmanEntry)
build_counted lengths position table allow_empty counts =
    let coded = tail counts in
    let empty : Result MetadataError (Option Huffman × List HuffmanEntry) =
      if allow_empty
      then ok (none, table)
      else err (deflate_error position (literal "empty Huffman tree")) in
    let built : Result MetadataError (Option Huffman × List HuffmanEntry) = (do
      check_left position 1 coded
      build_table lengths counts table) in
    if all_zero coded then empty else built

-- `Huffman::build`, with the table that it grows
unfoldable pub build :
    List ℕ
    → ℕ
    → List HuffmanEntry
    → Bool
    → Result MetadataError (Option Huffman × List HuffmanEntry)
build lengths position table allow_empty = do
  counts ← count_lengths position (replicate 16 0) lengths
  build_counted lengths position table allow_empty counts

-- `self.decode(table, bits)`; `stuck` is the panic of an index past the table.
unfoldable pub decode : Huffman → List HuffmanEntry → Reads ℕ
unfolding advance
decode h table r = elim (get_elem? table (h.start + peek_bits_padded r h.maximum_length)) [
  | none ↦ stuck
  | some entry ↦
      let advanced : Result MetadataError (ℕ × BitReader) = elim (advance entry.bit_length r) [
        | ok (_, r') ↦ ok (entry.symbol, r')
        | err e ↦ err e
        | stuck ↦ stuck
      ] in
      if entry.bit_length == 0 then fail "invalid Huffman code" r else advanced
]
