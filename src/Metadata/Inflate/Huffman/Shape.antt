-- ===== src/Metadata/Inflate/Huffman/Shape.antt =====
-- The shape of the table that `build` makes, and that `decode` stays inside it and takes a bit.
use open_sdbl.Prelude.{
  ℕ, zero, suc, ◌+◌, ◌-◌, ◌*◌, ◌%◌, ◌^◌, ◌≤◌, ◌≡◌, ◌≢◌, refl, ◌∙◌, List, [], ◌∷◌, ◌++◌, Bool, true,
  false, Option, none, some, arith, ◌==◌, if◌then◌else◌, length, length-append, length-set,
  length-replicate, replicate, set, get_or, get_elem?-eq_some, Bool-cases, inl, inr, ap, All, not,
  ltb, leb, ◌&&◌, if_elim, take, length-take,
}
use mathlib.Core.List.{tail}
use native.Mathlib.Nat.{one-le-pow}
use open_sdbl.Prelude.Result.{
  Result, ok, err, stuck, Ensures, holds, rejected, Ensures-intro, Ensures-weaken, Ensures->>=,
}
use open_sdbl.Metadata.Error.{literal, deflate_error}
use open_sdbl.Metadata.Inflate.BitReader.{BitReader, peek_bits_padded}
use open_sdbl.Metadata.Inflate.BitReader.Bounds.{IsInside, Moved, peek_bits_padded-lt}
use open_sdbl.Metadata.Inflate.Huffman.{
  Huffman, HuffmanEntry, default_entry, all_zero, maximum, count_lengths, check_left, first_codes,
  reverse_bits, fill_entries, place_code, place_symbol, place_symbols, with_tree, build_table,
  build_counted, build, decode,
}

-- A step takes the index forward, so the rounds reach the end, and no write is past the table.
fill_entries-ok :
    (fuel start table_length step index : ℕ) (entry : HuffmanEntry) (table : List HuffmanEntry)
    → 1 ≤ step
    → start + table_length ≤ length table
    → table_length ≤ index + fuel
    → (table' : List HuffmanEntry) × (fill_entries fuel start table_length step index entry table
        ≡ ok table')
      × (length table' ≡ length table)
unfolding fill_entries
fill_entries-ok zero start table_length step index entry table pos le enough =
    let done : ltb index table_length ≡ false = ground arith in rw done (table, refl, refl)
fill_entries-ok (suc fuel) start table_length step index entry table pos le enough =
    elim (Bool-cases (ltb index table_length)) [
      | inl more ↦
          let inside : ltb (start + index) (length table) ≡ true = ground arith in
          let size = length-set table (start + index) entry in
          let (table', e, same) =
            fill_entries-ok fuel start table_length step (index + step) entry
              (set table (start + index) entry) pos (omega arith) (omega arith) in
          rw (more, inside) (table', e, same ∙ size)
      | inr done ↦ rw done (table, refl, refl)
    ]

-- A round does not panic for a length of at most 15 bits.
Placed : List HuffmanEntry → Result ⊥ (List ℕ × List HuffmanEntry) → Type 0
Placed table r =
    (next_code : List ℕ) × (table' : List HuffmanEntry) × (r ≡ ok (next_code, table'))
    × (length next_code ≡ 16)
    × (length table' ≡ length table)

place_symbol-Placed :
    (start table_length symbol l : ℕ) (next_code : List ℕ) (table : List HuffmanEntry)
    → l ≤ 15
    → length next_code ≡ 16
    → start + table_length ≤ length table
    → Placed table (place_symbol start table_length symbol l next_code table)
unfolding place_symbol place_code Placed
place_symbol-Placed start table_length symbol l next_code table short size le =
    elim (Bool-cases (l == 0)) [
      | inl unused ↦ rw unused (next_code, table, refl, size, refl)
      | inr used ↦
          let (canonical, found) = get_elem?-eq_some next_code l (omega arith) in
          let entry : HuffmanEntry = record { bit_length = l; symbol = symbol % 2 ^ 16 } in
          let (filled, e, same) =
            fill_entries-ok table_length start table_length (2 ^ l) (reverse_bits canonical l) entry
              table (one-le-pow l 2 (omega arith)) le (omega arith) in
          let next = set next_code l ((canonical + 1) % 2 ^ 16) in
          rw (used, found, e) (next, filled, refl, length-set next_code l _ ∙ size, same)
    ]

place_symbols-ok :
    (start table_length symbol : ℕ) (lengths next_code : List ℕ) (table : List HuffmanEntry)
    → All (λ l. l ≤ 15) lengths
    → length next_code ≡ 16
    → start + table_length ≤ length table
    → (table' : List HuffmanEntry) × (place_symbols start table_length symbol lengths next_code
          table
        ≡ ok table')
      × (length table' ≡ length table)
unfolding place_symbols Placed
place_symbols-ok start table_length symbol [] next_code table short size le = (table, refl, refl)
place_symbols-ok start table_length symbol (l ∷ ls) next_code table (short, shorts) size le =
    let (next_code', table', e, size', same) =
      place_symbol-Placed start table_length symbol l next_code table short size le in
    let (table'', e', same') =
      place_symbols-ok start table_length (symbol + 1) ls next_code' table' shorts size'
        (omega arith) in
    rw e (table'', e', same' ∙ same)

length-first_codes : (code : ℕ) (counts : List ℕ) → length (first_codes code counts) ≡ length counts
unfolding first_codes
length-first_codes code [] = refl
length-first_codes code (count ∷ counts) =
    ap suc (length-first_codes ((code + count) % 2 ^ 16 * 2 % 2 ^ 16) counts)

-- The part of the table that belongs to the tree is there.
pub record Fits (h : Huffman) (table : List HuffmanEntry) : Type 0 where
  pub rows : h.table_length ≡ 2 ^ h.maximum_length
  pub within : h.start + h.table_length ≤ length table

pub Fits-mono :
    {h : Huffman} {table table' : List HuffmanEntry}
    → Fits h table
    → length table ≤ length table'
    → Fits h table'
Fits-mono f le = record { rows = f.rows; within = omega arith }

-- What `build` promises of its tree; without `allow_empty` there is one.
abbrev pub Built : Bool → List HuffmanEntry → Option Huffman × List HuffmanEntry → Type 0
Built allow_empty table (none, table') = (allow_empty ≡ true) × (table' ≡ table)
Built allow_empty table (some h, table') = Fits h table' × (length table ≤ length table')

-- For lengths of at most 15 bits and the sixteen counters the table is filled.
pub build_table-Built :
    (lengths counts : List ℕ) (table : List HuffmanEntry) (allow_empty : Bool)
    → All (λ l. l ≤ 15) lengths
    → length counts ≡ 16
    → (built : Option Huffman × List HuffmanEntry) × (build_table lengths counts table ≡ ok built)
      × Built allow_empty table built
unfolding build_table
build_table-Built lengths counts table allow_empty short size =
    let rows = 2 ^ maximum lengths in
    let resized = table ++ replicate rows default_entry in
    let grown : length resized ≡ length table + rows =
      length-append table (replicate rows default_entry)
      ∙ rw (length-replicate rows default_entry) in
    let codes = length-first_codes 0 (take 15 counts) in
    let (filled, e, same) =
      place_symbols-ok (length table) rows 0 lengths (0 ∷ first_codes 0 (take 15 counts)) resized
        short (omega (arith, codes, length-take 15 counts, size)) (omega arith) in
    let tree : Huffman = record {
      start = length table;
      table_length = rows;
      maximum_length = maximum lengths;
    } in
    (
      (some tree, filled),
      ap (with_tree tree) e,
      (record { rows = refl; within = omega arith }, omega arith),
    )

-- The counts are made of lengths of at most 15 bits, and are sixteen.
abbrev pub Counts : List ℕ → List ℕ → Type 0
Counts lengths counts = All (λ l. l ≤ 15) lengths × (length counts ≡ 16)

pub count_lengths-Counts :
    (position : ℕ) (counts lengths : List ℕ)
    → length counts ≡ 16
    → Ensures (Counts lengths) (count_lengths position counts lengths)
unfolding count_lengths
count_lengths-Counts position counts [] size = holds (tt, size)
count_lengths-Counts position counts (l ∷ ls) size =
    let counted = set counts l ((get_or counts l 0 + 1) % 2 ^ 16) in
    let counts_then = if not (l == 0) then counted else counts in
    let size' : length counts_then ≡ 16 =
      if_elim (λ cs. length cs ≡ 16) (not (l == 0)) counted counts
        (λ _. length-set counts l _ ∙ size) (λ _. size) in
    elim (Bool-cases (ltb 15 l)) [
      | inl long ↦ rw long rejected
      | inr short ↦
          let inside : (not (l == 0) && leb (length counts) l) ≡ false = ground arith in
          rw (short, inside)
            (Ensures-weaken (count_lengths-Counts position counts_then ls size')
              λ counts' (shorts, size''). ((ground arith, shorts), size''))
    ]

check_left-ne-stuck :
    (position left : ℕ) (counts : List ℕ) → check_left position left counts ≢ stuck
unfolding check_left
check_left-ne-stuck position left [] = λ e. cc
check_left-ne-stuck position left (count ∷ counts) =
    ground (arith, check_left-ne-stuck position (left * 2 - count) counts)

build_counted-Built :
    (lengths : List ℕ) (position : ℕ) (table : List HuffmanEntry) (allow_empty : Bool)
    (counts : List ℕ)
    → Counts lengths counts
    → Ensures (Built allow_empty table) (build_counted lengths position table allow_empty counts)
unfolding build_counted
build_counted-Built lengths position table allow_empty counts (short, size) =
    elim (Bool-cases (all_zero (tail counts))) [
      | inl none_coded ↦ rw none_coded (no_tree allow_empty)
      | inr coded ↦ rw coded (
          Ensures->>= (check_left position 1 (tail counts)) _
            (Ensures-intro {P = λ _. Unit {0}} _ (check_left-ne-stuck position 1 (tail counts))
              (λ _ _. tt))
            (λ _ _ _.
              let (built, e, fits) =
                build_table-Built lengths counts table allow_empty short size in
              rw e (holds fits)))
    ]
  where
    no_tree :
        (b : Bool)
        → Ensures (Built b table) (
            if b
            then ok (none, table)
            else err (deflate_error position (literal "empty Huffman tree")))
    no_tree true = holds (refl, refl)
    no_tree false = rejected

pub build-Built :
    (lengths : List ℕ) (position : ℕ) (table : List HuffmanEntry) (allow_empty : Bool)
    → Ensures (Built allow_empty table) (build lengths position table allow_empty)
unfolding build
build-Built lengths position table allow_empty =
    Ensures->>= (count_lengths position (replicate 16 0) lengths)
      (build_counted lengths position table allow_empty)
      (count_lengths-Counts position (replicate 16 0) lengths refl)
      (λ counts _ made. build_counted-Built lengths position table allow_empty counts made)

pub decode-Moved :
    (h : Huffman) (table : List HuffmanEntry) (r : BitReader)
    → Fits h table
    → IsInside r
    → Ensures (λ (_, r'). Moved 1 r r') (decode h table r)
unfolding decode
decode-Moved h table r f i =
    let index = h.start + peek_bits_padded r h.maximum_length in
    let below = peek_bits_padded-lt r h.maximum_length in
    let (entry, found) = get_elem?-eq_some table index (omega arith) in
    Ensures-intro _ (ground arith) λ (_, r') e. ground arith
