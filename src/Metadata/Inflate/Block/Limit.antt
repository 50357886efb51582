-- ===== src/Metadata/Inflate/Block/Limit.antt =====
-- A compressed block ends, does not panic, moves forward, and keeps the output within its limit.
use open_sdbl.Prelude.{
  ℕ, zero, suc, ◌+◌, ◌-◌, ◌*◌, ◌%◌, ◌≤◌, ◌<◌, ◌≡◌, List, [], ◌∷◌, Bool, false, ◌||◌, Option, none,
  some, arith, ltb, leb, ◌==◌, length, length-append,
}
use open_sdbl.Prelude.Result.{Ensures, holds, rejected, Ensures-intro, Ensures-weaken}
use open_sdbl.Metadata.Inflate.BitReader.{BitReader, Reads, table_at, read_bits}
use open_sdbl.Metadata.Inflate.BitReader.Bounds.{
  IsInside, Moved, Moved-trans, Moved-then, Moved-refl, Moved-length, Ensures->>=, Ensures-if,
  read_bits-Moved, table_at-Moved,
}
use open_sdbl.Metadata.Inflate.Huffman.{Huffman, HuffmanEntry, decode}
use open_sdbl.Metadata.Inflate.Huffman.Shape.{Fits, Fits-mono, Built, decode-Moved}
use open_sdbl.Metadata.Inflate.Lengths.{build_at, expect_tree}
use open_sdbl.Metadata.Inflate.Lengths.Shape.{build_at-Built, expect_tree-Fits}
use open_sdbl.Metadata.Inflate.Block.{
  reserve_output, length_base, length_extra, distance_base, distance_extra, need_tree, copied,
  copy_checked, read_based, read_distance, back_reference, push_literal, symbol_step, next_round,
  decode_symbols, compressed_block,
}
use open_sdbl.Metadata.Inflate.Block.Copy.{copy_back_reference-copy_bytes, length-copy_bytes}

-- An output within the limit, from a reader that moved forward.
abbrev pub Limited : ℕ → BitReader → List ℕ × BitReader → Type 0
Limited limit r (output, r') = Moved 0 r r' × (length output ≤ limit)

-- The tree for distances, if the block has one.
abbrev FitsIfAny : List HuffmanEntry → Option Huffman → Type 0
FitsIfAny table none = Unit
FitsIfAny table (some tree) = Fits tree table

pub reserve_output-Limited :
    (output : List ℕ) (additional limit : ℕ) (r : BitReader)
    → IsInside r
    → length output ≤ limit
    → Ensures
        (λ (_, r'). Moved 0 r r' × (length output + additional ≤ limit))
        (reserve_output output additional limit r)
unfolding reserve_output
reserve_output-Limited output additional limit r h le =
    Ensures-intro _ (ground arith) λ (_, r') e. (ground arith, ground arith)

in_range :
    (distance : ℕ) (output : List ℕ)
    → (distance == 0 || ltb (length output) distance) ≡ false
    → (1 ≤ distance) × (distance ≤ length output)
in_range distance output e = ground arith

copy_checked-Limited :
    (output : List ℕ) (distance count limit : ℕ) (r : BitReader)
    → IsInside r
    → length output ≤ limit
    → Ensures (Limited limit r) (copy_checked output distance count limit r)
unfolding copy_checked copied
copy_checked-Limited output distance count limit r h le =
    Ensures-if (distance == 0 || ltb (length output) distance) _ _ (λ _. rejected)
      λ within.
        Ensures->>= (reserve_output output count limit) _
          (reserve_output-Limited output count limit r h le)
          λ _ r' (m, room).
            let (pos, back) = in_range distance output within in
            rw (copy_back_reference-copy_bytes output distance count pos back)
              (holds (m, omega (arith, length-copy_bytes count distance output)))

read_based-Moved :
    (bases widths : List ℕ) (index : ℕ) (r : BitReader)
    → IsInside r
    → index < length bases
    → index < length widths
    → Ensures (λ (_, r'). Moved 0 r r') (read_based bases widths index r)
unfolding read_based
read_based-Moved bases widths index r h lt lt' =
    Ensures->>= (table_at bases index) _ (table_at-Moved bases index r h lt) λ base r1 (m1, _).
      Ensures->>= (table_at widths index) _ (table_at-Moved widths index r1 m1.inside lt')
        λ width r2 (m2, _).
          Ensures->>= (read_bits width) _ (read_bits-Moved width r2 m2.inside)
            λ extra r3 (m3, _). holds (Moved-then m1 (Moved-trans m2 m3) (omega arith))

read_distance-Moved :
    (symbol : ℕ) (r : BitReader)
    → IsInside r
    → Ensures (λ (_, r'). Moved 0 r r') (read_distance symbol r)
unfolding read_distance
read_distance-Moved symbol r h =
    Ensures-if (leb (length distance_base) symbol) _ _ (λ _. rejected)
      λ inside.
        let lt : symbol < 30 = ground arith in
        read_based-Moved distance_base distance_extra symbol r h lt lt

need_tree-Fits :
    (table : List HuffmanEntry) (tree? : Option Huffman) (r : BitReader)
    → IsInside r
    → FitsIfAny table tree?
    → Ensures (λ (tree, r'). Fits tree table × Moved 0 r r') (need_tree tree? r)
unfolding need_tree
need_tree-Fits table none r h f = rejected
need_tree-Fits table (some tree) r h f = holds (f, Moved-refl h)

back_reference-Limited :
    (symbol : ℕ) (distance_tree : Option Huffman) (table : List HuffmanEntry) (output : List ℕ)
    (limit : ℕ) (r : BitReader)
    → symbol - 257 < 29
    → FitsIfAny table distance_tree
    → IsInside r
    → length output ≤ limit
    → Ensures (Limited limit r) (back_reference symbol distance_tree table output limit r)
unfolding back_reference
back_reference-Limited symbol distance_tree table output limit r lt f h le =
    Ensures->>= (read_based length_base length_extra (symbol - 257)) _
      (read_based-Moved length_base length_extra (symbol - 257) r h lt lt)
      λ count r1 m1.
        Ensures->>= (need_tree distance_tree) _ (need_tree-Fits table distance_tree r1 m1.inside f)
          λ tree r2 (fits, m2).
            Ensures->>= (decode tree table) _ (decode-Moved tree table r2 fits m2.inside)
              λ distance_symbol r3 m3.
                Ensures->>= (read_distance distance_symbol) _
                  (read_distance-Moved distance_symbol r3 m3.inside)
                  λ distance r4 m4.
                    let m = Moved-trans m1 (Moved-trans m2 (Moved-trans m3 m4)) in
                    Ensures-weaken (copy_checked-Limited output distance _ limit r4 m4.inside le)
                      λ (_, r5) (m5, fit). (Moved-then m m5 (omega arith), fit)

-- The output of a step, if the block goes on, is within the limit.
abbrev LimitedIfAny : ℕ → BitReader → Option (List ℕ) × BitReader → Type 0
LimitedIfAny limit r (none, r') = Moved 0 r r'
LimitedIfAny limit r (some output, r') = Limited limit r (output, r')

push_literal-Limited :
    (symbol : ℕ) (output : List ℕ) (limit : ℕ) (r : BitReader)
    → IsInside r
    → length output ≤ limit
    → Ensures (Limited limit r) (push_literal symbol output limit r)
unfolding push_literal
push_literal-Limited symbol output limit r h le =
    Ensures->>= (reserve_output output 1 limit) _ (reserve_output-Limited output 1 limit r h le)
      λ _ r' (m, room). holds (m, omega (arith, length-append output ((symbol % 256) ∷ [])))

next_round-Limited :
    {limit : ℕ} {r : BitReader} (go_on : List ℕ → Reads (List ℕ)) (output : List ℕ)
    (next : Option (List ℕ)) (r1 r2 : BitReader)
    → Moved 1 r r1
    → length output ≤ limit
    → LimitedIfAny limit r1 (next, r2)
    → ((output' : List ℕ)
        → Moved 0 r1 r2
        → length output' ≤ limit
        → Ensures (Limited limit r2) (go_on output' r2))
    → Ensures (Limited limit r) (next_round go_on output next r2)
unfolding next_round
next_round-Limited go_on output none r1 r2 m1 le m2 k = holds (Moved-then m1 m2 (omega arith), le)
next_round-Limited go_on output (some output') r1 r2 m1 le (m2, le') k =
    Ensures-weaken (k output' m2 le')
      λ (_, r3) (m3, le''). (Moved-then m1 (Moved-trans m2 m3) (omega arith), le'')

module _ (tree : Huffman) (distance_tree : Option Huffman) (table : List HuffmanEntry) (limit : ℕ)
    (fits : Fits tree table) (distance_fits : FitsIfAny table distance_tree) where
  symbol_step-Limited :
      (symbol : ℕ) (output : List ℕ) (r : BitReader)
      → IsInside r
      → length output ≤ limit
      → Ensures (LimitedIfAny limit r) (symbol_step symbol distance_tree table output limit r)
  unfolding symbol_step
  symbol_step-Limited symbol output r h le =
      Ensures-if (leb symbol 255) _ _
        (λ _.
          Ensures->>= (push_literal symbol output limit) _
            (push_literal-Limited symbol output limit r h le) λ output' r' l. holds l)
        λ _.
          Ensures-if (symbol == 256) _ _ (λ _. holds (Moved-refl h))
            λ _.
              Ensures-if (leb symbol 285) _ _
                (λ known.
                  Ensures->>= (back_reference symbol distance_tree table output limit) _
                    (back_reference-Limited symbol distance_tree table output limit r (ground arith)
                      distance_fits h le)
                    λ output' r' l. holds l)
                (λ _. rejected)

  -- Each symbol takes a bit, so fuel above the bits that are left is enough.
  decode_symbols-Limited :
      (fuel : ℕ) (output : List ℕ) (r : BitReader)
      → IsInside r
      → length output ≤ limit
      → length r.input * 8 < r.bit + fuel
      → Ensures (Limited limit r) (decode_symbols fuel tree distance_tree table output limit r)
  unfolding decode_symbols
  decode_symbols-Limited zero output r h le enough = absurd (omega arith)
  decode_symbols-Limited (suc fuel) output r h le enough =
      Ensures->>= (decode tree table) _ (decode-Moved tree table r fits h) λ symbol r1 m1.
        Ensures->>= (symbol_step symbol distance_tree table output limit) _
          (symbol_step-Limited symbol output r1 m1.inside le)
          λ next r2 l.
            let size = Moved-length m1 in
            next_round-Limited _ output next r1 r2 m1 le l λ output' m2 le'.
              decode_symbols-Limited fuel output' r2 m2.inside le' (omega (arith, Moved-length m2))

-- The second tree leaves the first one in the shared table.
trees-Fits :
    (allow_empty : Bool) (literal_table table : List HuffmanEntry) (tree : Huffman)
    (distance_tree : Option Huffman)
    → Fits tree literal_table
    → Built allow_empty literal_table (distance_tree, table)
    → Fits tree table × FitsIfAny table distance_tree
trees-Fits allow_empty literal_table table tree none f (_, same) = (rw same f, tt)
trees-Fits allow_empty literal_table table tree (some d) f (g, le) = (Fits-mono f le, g)

pub compressed_block-Limited :
    (output literal_lengths distance_lengths : List ℕ) (limit : ℕ) (r : BitReader)
    → IsInside r
    → length output ≤ limit
    → Ensures (Limited limit r) (compressed_block output literal_lengths distance_lengths limit r)
unfolding compressed_block
compressed_block-Limited output literal_lengths distance_lengths limit r h le =
    let single = length distance_lengths == 1 in
    Ensures->>= (build_at literal_lengths [] false) _ (build_at-Built literal_lengths [] false r h)
      λ (tree?, literal_table) r1 (built, m1).
        Ensures->>= (expect_tree tree?) _
          (expect_tree-Fits [] literal_table tree? r1 m1.inside built)
          λ tree r2 (fits, m2).
            Ensures->>= (build_at distance_lengths literal_table single) _
              (build_at-Built distance_lengths literal_table single r2 m2.inside)
              λ (distance_tree, table) r3 (built', m3).
                let m = Moved-trans m1 (Moved-trans m2 m3) in
                let both = trees-Fits single literal_table table tree distance_tree fits built' in
                Ensures-weaken
                  (decode_symbols-Limited tree distance_tree table limit both.0 both.1 _ output r3
                    m3.inside le (omega (arith, Moved-length m)))
                  λ (_, r4) (m4, fit). (Moved-then m m4 (omega arith), fit)
