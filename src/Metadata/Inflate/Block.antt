-- ===== src/Metadata/Inflate/Block.antt =====
-- The blocks of a stream, from src/metadata/deflate.rs: `stored_block`, `compressed_block` and what
-- they call. `&mut Vec<u8>` for the output is an argument and a part of the result. Allocation is
-- taken to succeed: `try_reserve` has no failure here.
pub mod Copy
pub mod Limit
pub mod Stored
use open_sdbl.Prelude.{
  ℕ, zero, suc, ◌+◌, ◌-◌, ◌*◌, ◌%◌, min, String, false, not, List, [], ◌∷◌, ◌++◌, Option, none,
  some, ltb, leb, ◌==◌, ◌||◌, if◌then◌else◌, length, get_or, take, drop,
}
use open_sdbl.Prelude.Result.{ok, err, stuck}
use open_sdbl.Metadata.Error.{formatted, deflate_error}
use open_sdbl.Metadata.Inflate.BitReader.{
  Reads, pure, ◌>>=◌, ◌>>◌, fail, table_at, read_bits, read_u16, read_bytes, align_byte,
}
use open_sdbl.Metadata.Inflate.Huffman.{Huffman, HuffmanEntry, decode}
use open_sdbl.Metadata.Inflate.Lengths.{build_at, expect_tree}

-- `LENGTH_BASE`, `LENGTH_EXTRA`, `DISTANCE_BASE` and `DISTANCE_EXTRA`
abbrev pub length_base : List ℕ
length_base =
    3 ∷ 4 ∷ 5 ∷ 6 ∷ 7 ∷ 8 ∷ 9 ∷ 10 ∷ 11 ∷ 13 ∷ 15 ∷ 17 ∷ 19 ∷ 23 ∷ 27 ∷ 31 ∷ 35 ∷ 43 ∷ 51 ∷ 59 ∷ 67
    ∷ 83 ∷ 99 ∷ 115 ∷ 131 ∷ 163 ∷ 195 ∷ 227 ∷ 258 ∷ []

abbrev pub length_extra : List ℕ
length_extra =
    0 ∷ 0 ∷ 0 ∷ 0 ∷ 0 ∷ 0 ∷ 0 ∷ 0 ∷ 1 ∷ 1 ∷ 1 ∷ 1 ∷ 2 ∷ 2 ∷ 2 ∷ 2 ∷ 3 ∷ 3 ∷ 3 ∷ 3 ∷ 4 ∷ 4 ∷ 4 ∷ 4
    ∷ 5 ∷ 5 ∷ 5 ∷ 5 ∷ 0 ∷ []

abbrev pub distance_base : List ℕ
distance_base =
    1 ∷ 2 ∷ 3 ∷ 4 ∷ 5 ∷ 7 ∷ 9 ∷ 13 ∷ 17 ∷ 25 ∷ 33 ∷ 49 ∷ 65 ∷ 97 ∷ 129 ∷ 193 ∷ 257 ∷ 385 ∷ 513 ∷ 769
    ∷ 1025 ∷ 1537 ∷ 2049 ∷ 3073 ∷ 4097 ∷ 6145 ∷ 8193 ∷ 12289 ∷ 16385 ∷ 24577 ∷ []

abbrev pub distance_extra : List ℕ
distance_extra =
    0 ∷ 0 ∷ 0 ∷ 0 ∷ 1 ∷ 1 ∷ 2 ∷ 2 ∷ 3 ∷ 3 ∷ 4 ∷ 4 ∷ 5 ∷ 5 ∷ 6 ∷ 6 ∷ 7 ∷ 7 ∷ 8 ∷ 8 ∷ 9 ∷ 9 ∷ 10 ∷ 10
    ∷ 11 ∷ 11 ∷ 12 ∷ 12 ∷ 13 ∷ 13 ∷ []

-- The limit and the output stand first; what is left of the limit is `saturating_sub`.
unfoldable pub reserve_output : List ℕ → ℕ → ℕ → Reads (Unit {0})
reserve_output output additional limit r =
    if ltb (limit - length output) additional
    then err (deflate_error r.bit (formatted "decoded metadata exceeds " limit " byte limit"))
    else ok (tt, r)

-- `while remaining != 0`, each round copying all that stands behind `start`.
unfoldable pub copy_rounds : ℕ → ℕ → ℕ → List ℕ → Option (List ℕ)
copy_rounds zero start remaining output = if remaining == 0 then some output else none
copy_rounds (suc fuel) start remaining output =
    let copied = min remaining (length output - start) in
    let more =
      copy_rounds fuel start (remaining - copied) (output ++ take copied (drop start output)) in
    if remaining == 0 then some output else more

-- A round copies a byte at least if `distance` is not 0, so `count` rounds are enough.
unfoldable pub copy_back_reference : List ℕ → ℕ → ℕ → Option (List ℕ)
unfolding copy_rounds
copy_back_reference output distance count =
    copy_rounds count (length output - distance) count output

abbrev pub no_tree : String
no_tree = "length symbol requires a distance Huffman tree"

unfoldable pub need_tree : Option Huffman → Reads Huffman
need_tree none = fail no_tree
need_tree (some tree) = pure tree

unfoldable pub copied : Option (List ℕ) → Reads (List ℕ)
copied none r = stuck
copied (some output) r = ok (output, r)

-- The copy itself, once length and distance are known.
unfoldable pub copy_checked : List ℕ → ℕ → ℕ → ℕ → Reads (List ℕ)
unfolding reserve_output
copy_checked output distance count limit =
    if distance == 0 || ltb (length output) distance
    then fail "DEFLATE back-reference is out of range"
    else do reserve_output output count limit; copied (copy_back_reference output distance count)

-- `BASE[index] + bits.read_bits(EXTRA[index])?`
unfoldable pub read_based : List ℕ → List ℕ → ℕ → Reads ℕ
read_based bases widths index = do
  base ← table_at bases index
  width ← table_at widths index
  extra ← read_bits width
  pure (base + extra)

unfoldable pub read_distance : ℕ → Reads ℕ
unfolding read_based
read_distance symbol =
    if leb (length distance_base) symbol
    then fail "invalid DEFLATE distance symbol"
    else read_based distance_base distance_extra symbol

-- The arm `257..=285`
unfoldable pub back_reference : ℕ → Option Huffman → List HuffmanEntry → List ℕ → ℕ → Reads (List ℕ)
unfolding copy_checked read_distance read_based
back_reference symbol distance_tree table output limit = do
  count ← read_based length_base length_extra (symbol - 257)
  tree ← need_tree distance_tree
  distance_symbol ← decode tree table
  distance ← read_distance distance_symbol
  copy_checked output distance count limit

-- The arm `0..=255`; `symbol as u8` drops nothing.
unfoldable pub push_literal : ℕ → List ℕ → ℕ → Reads (List ℕ)
unfolding reserve_output
push_literal symbol output limit = do
  reserve_output output 1 limit
  pure (output ++ (symbol % 256) ∷ [])

-- What one symbol does: `none` at the end of the block, else the output with more in it.
unfoldable pub symbol_step :
    ℕ → Option Huffman → List HuffmanEntry → List ℕ → ℕ → Reads (Option (List ℕ))
unfolding back_reference push_literal
symbol_step symbol distance_tree table output limit =
    if leb symbol 255
    then (do output' ← push_literal symbol output limit; pure (some output'))
    else if symbol == 256
    then pure none
    else if leb symbol 285
    then (do output' ← back_reference symbol distance_tree table output limit; pure (some output'))
    else fail "invalid DEFLATE literal/length symbol"

-- Leaves the loop at the end of the block, and otherwise goes on.
unfoldable pub next_round : (List ℕ → Reads (List ℕ)) → List ℕ → Option (List ℕ) → Reads (List ℕ)
next_round go_on output none = pure output
next_round go_on output (some output') = go_on output'

-- The `loop` of `compressed_block`. A symbol takes a bit at least.
unfoldable pub decode_symbols :
    ℕ → Huffman → Option Huffman → List HuffmanEntry → List ℕ → ℕ → Reads (List ℕ)
unfolding symbol_step
decode_symbols zero tree distance_tree table output limit = λ _. stuck
decode_symbols (suc fuel) tree distance_tree table output limit = do
  symbol ← decode tree table
  next ← symbol_step symbol distance_tree table output limit
  next_round (λ output'. decode_symbols fuel tree distance_tree table output' limit) output next

-- The caller's table is only a buffer, cleared before use.
unfoldable pub compressed_block : List ℕ → List ℕ → List ℕ → ℕ → Reads (List ℕ)
unfolding decode_symbols
compressed_block output literal_lengths distance_lengths limit r =
    (do
      (tree?, literal_table) ← build_at literal_lengths [] false
      tree ← expect_tree tree?
      (distance_tree, table) ←
          build_at distance_lengths literal_table (length distance_lengths == 1)
      decode_symbols (length r.input * 8 + 1) tree distance_tree table output limit)
      r

-- The checks behind the two length fields, and the bytes. `!complement` in 16 bits is
-- `65535 - complement`.
unfoldable pub stored_bytes : List ℕ → ℕ → ℕ → ℕ → Reads (List ℕ)
unfolding reserve_output
stored_bytes output limit count complement =
    if not (count == 65535 - complement)
    then fail "invalid stored-block length complement"
    else do reserve_output output count limit; read_bytes count

unfoldable pub stored_block : List ℕ → ℕ → Reads (List ℕ)
stored_block output limit r =
    (do
      count ← read_u16
      complement ← read_u16
      bytes ← stored_bytes output limit count complement
      pure (output ++ bytes))
      (align_byte r)
