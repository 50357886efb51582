-- ===== src/Metadata/Inflate/Lengths/Shape.antt =====
-- `dynamic_lengths` ends, moves forward, and does not panic.
use open_sdbl.Prelude.{
  ℕ, zero, suc, ◌+◌, ◌≤◌, ◌<◌, ◌≡◌, refl, List, [], ◌∷◌, Bool, false, Option, none, some, arith,
  ltb, leb, ◌==◌, ◌∙◌, true, get_elem?, length-set, length, length-append, length-replicate,
  replicate, Bool-cases, inl, inr,
}
use open_sdbl.Prelude.Result.{
  Result, ok, err, stuck, Ensures, holds, rejected, Ensures-intro, Ensures-ok, Ensures-ne-stuck,
  Ensures-weaken,
}
use open_sdbl.Metadata.Error.{MetadataError}
use open_sdbl.Metadata.Inflate.BitReader.{BitReader, ◌>>=◌, table_at, read_bits}
use open_sdbl.Metadata.Inflate.BitReader.Bounds.{
  IsInside, Moved, Moved-trans, Ensures->>=, read_bits-Moved, table_at-Moved, Ensures-if,
  Moved-refl, Moved-then,
}
use open_sdbl.Metadata.Inflate.Huffman.{Huffman, HuffmanEntry, maximum, build, decode}
use open_sdbl.Metadata.Inflate.Huffman.Shape.{Fits, Built, build-Built, decode-Moved}
use open_sdbl.Metadata.Inflate.Lengths.{
  append_repeated, repeat_previous, append_dynamic_length, last, code_order, write_at,
  read_code_lengths, read_lengths, build_at, expect_tree, split_lengths, dynamic_lengths,
}

-- A step that keeps the reader inside and appends a length at least.
abbrev Grows : List ℕ → BitReader → List ℕ × BitReader → Type 0
Grows lengths r (lengths', r') = Moved 0 r r' × (length lengths < length lengths')

append_repeated-Grows :
    (lengths : List ℕ) (value repeat total : ℕ) (r : BitReader)
    → IsInside r
    → 0 < repeat
    → Ensures (Grows lengths r) (append_repeated lengths value repeat total r)
unfolding append_repeated
append_repeated-Grows lengths value repeat total r h p = Ensures-intro _ (ground arith) λ (_, r') e.
    (
      ground arith,
      ground (arith, length-append lengths (replicate repeat value), length-replicate repeat value),
    )

-- Each repeat code reads a count and appends a run.
repeat-Grows :
    (bits base value total : ℕ) (lengths : List ℕ) (r : BitReader)
    → IsInside r
    → 0 < base
    → Ensures
        (Grows lengths r)
        ((read_bits bits >>= λ extra. append_repeated lengths value (extra + base) total) r)
repeat-Grows bits base value total lengths r h p =
    Ensures->>= (read_bits bits) _ (read_bits-Moved bits r h) λ extra r' (m, _).
      Ensures-weaken
        (append_repeated-Grows lengths value (extra + base) total r' m.inside (omega arith))
        λ (lengths', r'') (m', longer). (Moved-then m m' (omega arith), longer)

repeat_previous-Grows :
    (previous : Option ℕ) (lengths : List ℕ) (total : ℕ) (r : BitReader)
    → IsInside r
    → Ensures (Grows lengths r) (repeat_previous previous lengths total r)
unfolding repeat_previous
repeat_previous-Grows none lengths total r h = rejected
repeat_previous-Grows (some previous) lengths total r h =
    repeat-Grows 2 3 previous total lengths r h (omega arith)

append_dynamic_length-Grows :
    (symbol : ℕ) (lengths : List ℕ) (total : ℕ) (r : BitReader)
    → IsInside r
    → Ensures (Grows lengths r) (append_dynamic_length symbol lengths total r)
unfolding append_dynamic_length
append_dynamic_length-Grows symbol lengths total r h =
    Ensures-if (leb symbol 15) _ _
      (λ _. holds (Moved-refl h, omega (arith, length-append lengths (symbol ∷ []))))
      λ _.
        Ensures-if (symbol == 16) _ _ (λ _. repeat_previous-Grows (last lengths) lengths total r h)
          λ _.
            Ensures-if (symbol == 17) _ _ (λ _. repeat-Grows 3 3 0 total lengths r h (omega arith))
              λ _.
                Ensures-if (symbol == 18) _ _
                  (λ _. repeat-Grows 7 11 0 total lengths r h (omega arith)) (λ _. rejected)

get_elem?-le-maximum : (xs : List ℕ) (index v : ℕ) → get_elem? xs index ≡ some v → v ≤ maximum xs
get_elem?-le-maximum [] index v e = cc
get_elem?-le-maximum (x ∷ xs) zero v e = let same : x ≡ v = cc in omega arith
get_elem?-le-maximum (x ∷ xs) (suc index) v e =
    let later = get_elem?-le-maximum xs index v e in omega arith

-- Every entry of `ORDER` is a place of the nineteen lengths.
code_order-lt : (index place : ℕ) → get_elem? code_order index ≡ some place → place < 19
code_order-lt index place e = omega (arith, get_elem?-le-maximum code_order index place e)

write_at-Moved :
    (lengths : List ℕ) (place value : ℕ) (r : BitReader)
    → IsInside r
    → place < length lengths
    → Ensures
        (λ (written, r'). Moved 0 r r' × (length written ≡ length lengths))
        (write_at lengths place value r)
unfolding write_at
write_at-Moved lengths place value r h lt =
    let inside : ltb place (length lengths) ≡ true = ground arith in
    rw inside (holds (Moved-refl h, length-set lengths place value))

-- At most the nineteen rounds for which `ORDER` has an entry.
read_code_lengths-Moved :
    (left index : ℕ) (code_lengths : List ℕ) (r : BitReader)
    → IsInside r
    → index + left ≤ 19
    → length code_lengths ≡ 19
    → Ensures (λ (_, r'). Moved 0 r r') (read_code_lengths left index code_lengths r)
unfolding read_code_lengths
read_code_lengths-Moved zero index code_lengths r h le size = holds (Moved-refl h)
read_code_lengths-Moved (suc left) index code_lengths r h le size =
    Ensures->>= (read_bits 3) _ (read_bits-Moved 3 r h) λ v r1 (m1, _).
      Ensures->>= (table_at code_order index) _
        (table_at-Moved code_order index r1 m1.inside (omega arith))
        λ place r2 (m2, found).
          let lt = code_order-lt index place found in
          Ensures->>= (write_at code_lengths place v) _
            (write_at-Moved code_lengths place v r2 m2.inside (omega arith))
            λ written r3 (m3, same).
              Ensures-weaken
                (read_code_lengths-Moved left (suc index) written r3 m3.inside (omega arith)
                  (same ∙ size))
                λ (_, r4) m4. Moved-then m1 (Moved-trans m2 (Moved-trans m3 m4)) (omega arith)

-- With fuel for each length that is missing the loop ends.
read_lengths-Moved :
    (fuel : ℕ) (tree : Huffman) (table : List HuffmanEntry) (total : ℕ) (lengths : List ℕ)
    (r : BitReader)
    → Fits tree table
    → IsInside r
    → total ≤ length lengths + fuel
    → Ensures (λ (_, r'). Moved 0 r r') (read_lengths fuel tree table total lengths r)
unfolding read_lengths
read_lengths-Moved zero tree table total lengths r f h enough =
    let done : ltb (length lengths) total ≡ false = ground arith in rw done (holds (Moved-refl h))
read_lengths-Moved (suc fuel) tree table total lengths r f h enough =
    elim (Bool-cases (ltb (length lengths) total)) [
      | inl more ↦ rw more (
          Ensures->>= (decode tree table) _ (decode-Moved tree table r f h) λ symbol r' m.
            Ensures->>= (append_dynamic_length symbol lengths total) _
              (append_dynamic_length-Grows symbol lengths total r' m.inside)
              λ lengths' r'' (m', longer).
                Ensures-weaken
                  (read_lengths-Moved fuel tree table total lengths' r'' f m'.inside (omega arith))
                  λ (_, end) m''. Moved-then m (Moved-trans m' m'') (omega arith))
      | inr done ↦ rw done (holds (Moved-refl h))
    ]

pub build_at-Built :
    (lengths : List ℕ) (table : List HuffmanEntry) (allow_empty : Bool) (r : BitReader)
    → IsInside r
    → Ensures
        (λ (built, r'). Built allow_empty table built × Moved 0 r r')
        (build_at lengths table allow_empty r)
unfolding build_at
build_at-Built lengths table allow_empty r h =
    from (build lengths r.bit table allow_empty) (build-Built lengths r.bit table allow_empty)
  where
    from :
        (x : Result MetadataError (Option Huffman × List HuffmanEntry))
        → Ensures (Built allow_empty table) x
        → Ensures
            (λ (built, r'). Built allow_empty table built × Moved 0 r r')
            (elim x [ ok built ↦ ok (built, r) | err e ↦ err e | stuck ↦ stuck ])
    from (ok built) g = holds (Ensures-ok g refl, Moved-refl h)
    from (err e) g = rejected
    from stuck g = absurd (Ensures-ne-stuck g refl)

-- A required tree is there: the panic of `expect` is not reached.
pub expect_tree-Fits :
    (table table' : List HuffmanEntry) (tree? : Option Huffman) (r : BitReader)
    → IsInside r
    → Built false table (tree?, table')
    → Ensures (λ (tree, r'). Fits tree table' × Moved 0 r r') (expect_tree tree? r)
unfolding expect_tree
expect_tree-Fits table table' none r h (allowed, _) = absurd (cc)
expect_tree-Fits table table' (some tree) r h (f, _) = holds (f, Moved-refl h)

-- The code-length tree, and the lengths that are read with it.
tree_lengths :
    (total literal_count : ℕ) (code_lengths : List ℕ) (r : BitReader)
    → IsInside r
    → Ensures
        (λ (_, r'). Moved 0 r r')
        ((do
          (tree?, table) ← build_at code_lengths [] false
          tree ← expect_tree tree?
          lengths ← read_lengths total tree table total []
          split_lengths literal_count lengths)
          r)
unfolding split_lengths
tree_lengths total literal_count code_lengths r h =
    Ensures->>= (build_at code_lengths [] false) _ (build_at-Built code_lengths [] false r h)
      λ (tree?, table) r1 (built, m1).
        Ensures->>= (expect_tree tree?) _ (expect_tree-Fits [] table tree? r1 m1.inside built)
          λ tree r2 (fits, m2).
            Ensures->>= (read_lengths total tree table total []) _
              (read_lengths-Moved total tree table total [] r2 fits m2.inside (omega arith))
              λ lengths r3 m3.
                let m = Moved-trans m1 (Moved-trans m2 m3) in
                Ensures-intro _ (ground arith) λ (_, r4) e. ground arith

pub dynamic_lengths-Moved :
    (r : BitReader) → IsInside r → Ensures (λ (_, r'). Moved 0 r r') (dynamic_lengths r)
unfolding dynamic_lengths
dynamic_lengths-Moved r h =
    Ensures->>= (read_bits 5) _ (read_bits-Moved 5 r h) λ literal_extra r1 (m1, _).
      Ensures->>= (read_bits 5) _ (read_bits-Moved 5 r1 m1.inside) λ distance_extra r2 (m2, _).
        Ensures->>= (read_bits 4) _ (read_bits-Moved 4 r2 m2.inside) λ code_extra r3 (m3, few).
          Ensures->>= (read_code_lengths _ _ _) _
            (read_code_lengths-Moved (code_extra + 4) 0 (replicate 19 0) r3 m3.inside (omega arith)
              refl)
            λ code_lengths r4 m4.
              let m = Moved-trans m1 (Moved-trans m2 (Moved-trans m3 m4)) in
              Ensures-weaken
                (tree_lengths (literal_extra + 257 + (distance_extra + 1)) _ code_lengths r4
                  m4.inside)
                λ (_, r5) m5. Moved-then m m5 (omega arith)
