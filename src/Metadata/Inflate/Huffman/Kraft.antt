-- ===== src/Metadata/Inflate/Huffman/Kraft.antt =====
-- Which code lengths `build` accepts: those of at most 15 bits that satisfy Kraft's inequality.
use open_sdbl.Prelude.{
  ℕ, zero, suc, ◌+◌, ◌-◌, ◌*◌, ◌%◌, ◌^◌, ◌≤◌, ◌<◌, ◌≡◌, ◌≢◌, ◌↔◌, inl, inr, refl, ap, ◌∙◌, List, [],
  ◌∷◌, true, false, not, Option, arith, ltb, ◌==◌, if◌then◌else◌, length, length-set, replicate,
  get_or, set, All, leb, ◌&&◌, Bool-cases, ltb→lt,
}
use mathlib.Core.List.{tail}
use native.Mathlib.Nat.{one-le-pow, two-pow-succ, mul-le-mul_right, add_assoc}
use open_sdbl.Prelude.Result.{Result, ok, >>=-eq-ok, Ensures-ok}
use open_sdbl.Metadata.Error.{MetadataError}
use open_sdbl.Metadata.Inflate.Huffman.Shape.{build_table-Built, count_lengths-Counts}
use open_sdbl.Metadata.Inflate.Huffman.{
  Huffman, HuffmanEntry, all_zero, count_lengths, check_left, build_table, build_counted, build,
}

-- A code of `l` bits takes `2 ^ (15 - l)` of the `2 ^ 15` strings of 15 bits; an unused symbol none.
abbrev pub kraft : List ℕ → ℕ
kraft [] = 0
kraft (l ∷ ls) = (if l == 0 then 0 else 2 ^ (15 - l)) + kraft ls

-- The same for the counts of codes of one bit more each time, in strings of the longest.
abbrev weight : List ℕ → ℕ
weight [] = 0
weight (c ∷ cs) = c * 2 ^ length cs + weight cs

-- One round of `left`, with `p` strings for each code that is free after it.
round_fits :
    (left c p w : ℕ) → c ≤ left * 2 → (w ≤ (left * 2 - c) * p) ↔ (c * p + w ≤ left * (p + p))
round_fits left c p w h =
    let free : left * 2 - c + c ≡ left * 2 = omega arith in
    let all = ap (λ (t : ℕ). t * p) free in (λ a. omega (arith, all), λ a. omega (arith, all))

round_over : (left c p w : ℕ) → left * 2 < c → 1 ≤ p → ¬ (c * p + w ≤ left * (p + p))
round_over left c p w h pos a =
    grind (arith, mul-le-mul_right {m = left * 2 + 1} {n = c} p (omega arith))

check_left-weight :
    (position left : ℕ) (counts : List ℕ)
    → (check_left position left counts ≡ ok tt) ↔ (weight counts ≤ left * 2 ^ length counts)
unfolding check_left
check_left-weight position left [] = (λ e. omega arith, λ h. refl)
check_left-weight position left (c ∷ cs) =
    let ih = check_left-weight position (left * 2 - c) cs in
    let p = 2 ^ length cs in
    let pos = one-le-pow (length cs) 2 (omega arith) in
    rw (two-pow-succ (length cs)) (elim (Bool-cases (ltb (left * 2) c)) [
      | inl over ↦
          let none_free = round_over left c p (weight cs) (ltb→lt _ _ over) pos in
          (λ e. cc (rw over at e), λ h. absurd (none_free h))
      | inr fits ↦
          let free = round_fits left c p (weight cs) (ground arith) in
          (λ e. free.0 (ih.0 (rw fits at e)), λ h. rw fits (ih.1 (free.1 h)))
    ])

weight-set :
    (cs : List ℕ) (i : ℕ)
    → i < length cs
    → weight (set cs i (get_or cs i 0 + 1)) ≡ weight cs + 2 ^ (length cs - (i + 1))
weight-set [] i h = absurd (omega arith)
weight-set (c ∷ cs) zero h =
    let same : suc (length cs) - 1 ≡ length cs = omega arith in rw same (omega arith)
weight-set (c ∷ cs) (suc i) h =
    let same : suc (length cs) - (suc i + 1) ≡ length cs - (i + 1) = omega arith in
    rw (same, length-set cs i (get_or cs i 0 + 1)) (omega (arith, weight-set cs i (omega arith)))

all_zero-weight : (cs : List ℕ) → (all_zero cs ≡ true) ↔ (weight cs ≡ 0)
all_zero-weight [] = (λ _. refl, λ _. refl)
all_zero-weight (c ∷ cs) =
    let (to, from) = all_zero-weight cs in
    let pos = one-le-pow (length cs) 2 (omega arith) in
    (
      λ e. ground (arith, to),
      λ e. ground (arith, from, mul-le-mul_right {m = 1} {n = c} (2 ^ length cs)),
    )

-- The counters stay below their bound, have 16 places, and weigh what the lengths read so far weigh.
record Counted (left : ℕ) (k : ℕ) (counts : List ℕ) : Type 0 where
  places : length counts ≡ 16
  below : (i : ℕ) → get_or counts i 0 + left < 2 ^ 16
  weighs : weight (tail counts) ≡ k

get_or-set_le :
    (cs : List ℕ) (i j : ℕ) → get_or (set cs i (get_or cs i 0 + 1)) j 0 ≤ get_or cs j 0 + 1
get_or-set_le [] i j = omega arith
get_or-set_le (c ∷ cs) zero zero = omega arith
get_or-set_le (c ∷ cs) zero (suc j) = omega arith
get_or-set_le (c ∷ cs) (suc i) zero = omega arith
get_or-set_le (c ∷ cs) (suc i) (suc j) = get_or-set_le cs i j

Counted-set :
    (l left k : ℕ) (counts : List ℕ)
    → 1 ≤ l
    → l ≤ 15
    → Counted (suc left) k counts
    → Counted left (k + 2 ^ (15 - l)) (set counts l (get_or counts l 0 + 1))
Counted-set zero left k counts pos le c = absurd (omega arith)
Counted-set (suc i) left k [] pos le c = absurd (omega (arith, c.places))
Counted-set (suc i) left k (first ∷ cs) pos le c =
    let size : length cs ≡ 15 = omega (arith, c.places) in
    let place : length cs - (i + 1) ≡ 15 - suc i = omega arith in
    record {
      places = omega (arith, length-set cs i (get_or cs i 0 + 1), c.places);
      below = λ j. omega (arith, get_or-set_le (first ∷ cs) (suc i) j, c.below j);
      weighs = weight-set cs i (omega arith) ∙ rw place (omega (arith, c.weighs));
    }

Counted-skip : {left k : ℕ} {counts : List ℕ} → Counted (suc left) k counts → Counted left k counts
Counted-skip c = record {
  places = c.places;
  below = λ j. omega (arith, c.below j);
  weighs = c.weighs;
}

count_lengths_unused :
    (position : ℕ) (counts : List ℕ) (l : ℕ) (ls : List ℕ)
    → (l == 0) ≡ true
    → count_lengths position counts (l ∷ ls) ≡ count_lengths position counts ls
unfolding count_lengths
count_lengths_unused position counts l ls unused =
    let short : ltb 15 l ≡ false = ground arith in
    let inside : (not (l == 0) && leb (length counts) l) ≡ false = ground arith in
    rw (short, inside, unused)

count_lengths_used :
    (position : ℕ) (counts : List ℕ) (l : ℕ) (ls : List ℕ)
    → (l == 0) ≡ false
    → l ≤ 15
    → length counts ≡ 16
    → get_or counts l 0 + 1 < 2 ^ 16
    → count_lengths position counts (l ∷ ls)
      ≡ count_lengths position (set counts l (get_or counts l 0 + 1)) ls
unfolding count_lengths
count_lengths_used position counts l ls used le size below =
    let short : ltb 15 l ≡ false = ground arith in
    let no_wrap : (get_or counts l 0 + 1) % 2 ^ 16 ≡ get_or counts l 0 + 1 = omega arith in
    let inside : (not (l == 0) && leb (length counts) l) ≡ false = ground arith in
    rw (short, inside, used, no_wrap)

-- With lengths of at most 15 bits the counts are made, and weigh what the lengths take.
count_lengths-kraft :
    (position k : ℕ) (counts lengths : List ℕ)
    → Counted (length lengths) k counts
    → All (λ l. l ≤ 15) lengths
    → (counts' : List ℕ) × (count_lengths position counts lengths ≡ ok counts')
      × Counted 0 (k + kraft lengths) counts'
count_lengths-kraft position k counts [] c h = (
  counts,
  unfold count_lengths in refl,
  record { places = c.places; below = c.below; weighs = omega (arith, c.weighs) },
)
count_lengths-kraft position k counts (l ∷ ls) c (le, rest) = elim (Bool-cases (l == 0)) [
  | inl unused ↦
      let (counts', e, c') = count_lengths-kraft position k counts ls (Counted-skip c) rest in
      (
        counts',
        count_lengths_unused position counts l ls unused ∙ e,
        (let skipped : 0 + kraft ls ≡ kraft ls = omega arith in rw (unused, skipped) c'),
      )
  | inr used ↦
      let next = Counted-set l (length ls) k counts (ground arith) le c in
      let (counts', e, c') = count_lengths-kraft position (k + 2 ^ (15 - l)) _ ls next rest in
      (
        counts',
        count_lengths_used position counts l ls used le c.places (omega (arith, c.below l)) ∙ e,
        rw used (rw add_assoc at c'),
      )
]

-- `built` is what `build` returned.
abbrev pub Accepts : Result MetadataError (Option Huffman × List HuffmanEntry) → Type 0
Accepts r = (built : Option Huffman × List HuffmanEntry) × (r ≡ ok built)

check_left-Accepts :
    (lengths : List ℕ) (position : ℕ) (table : List HuffmanEntry) (counts : List ℕ)
    → All (λ l. l ≤ 15) lengths
    → length counts ≡ 16
    → all_zero (tail counts) ≡ false
    → Accepts (build_counted lengths position table false counts)
      ↔ (check_left position 1 (tail counts) ≡ ok tt)
unfolding build_counted
check_left-Accepts lengths position table counts short size coded =
    let (built, made, fits) = build_table-Built lengths counts table false short size in
    (
      λ (built', e).
          (>>=-eq-ok (check_left position 1 (tail counts)) (λ _. build_table lengths counts table)
            (rw coded at e)).1,
      λ fits'. (built, rw (coded, fits', made) (refl)),
    )

empty-rejected :
    (lengths : List ℕ) (position : ℕ) (table : List HuffmanEntry) (counts : List ℕ)
    {built : Option Huffman × List HuffmanEntry}
    → all_zero (tail counts) ≡ true
    → build_counted lengths position table false counts ≢ ok built
unfolding build_counted
empty-rejected lengths position table counts empty e = cc (rw empty at e)

get_or-replicate_zero : (n i : ℕ) → get_or {A = ℕ} (replicate n 0) i 0 ≡ 0
get_or-replicate_zero zero i = refl
get_or-replicate_zero (suc n) zero = refl
get_or-replicate_zero (suc n) (suc i) = get_or-replicate_zero n i

length-tail : (cs : List ℕ) → length cs ≡ 16 → length (tail cs) ≡ 15
length-tail [] e = absurd (omega arith)
length-tail (c ∷ cs) e = omega arith

build_Counted-kraft :
    (lengths : List ℕ) (position : ℕ) (table : List HuffmanEntry) (counts : List ℕ)
    → All (λ l. l ≤ 15) lengths
    → length counts ≡ 16
    → Accepts (build_counted lengths position table false counts)
      ↔ ((1 ≤ weight (tail counts)) × (weight (tail counts) ≤ 2 ^ 15))
build_Counted-kraft lengths position table counts short size =
    let fits = rw (length-tail counts size) at (check_left-weight position 1 (tail counts)) in
    let (zero_to, zero_from) = all_zero-weight (tail counts) in
    elim (Bool-cases (all_zero (tail counts))) [
      | inl empty ↦ (
        λ (built, e). absurd (empty-rejected lengths position table counts empty e),
        λ (pos, le). absurd (omega (arith, zero_to empty)),
      )
      | inr coded ↦
          let accepts = check_left-Accepts lengths position table counts short size coded in
          let some_coded : 1 ≤ weight (tail counts) = ground (arith, zero_from) in
          (λ a. (some_coded, fits.0 (accepts.0 a)), λ (pos, le). accepts.1 (fits.1 le))
    ]

-- The counts of lengths of at most 15 bits decide.
Counted-kraft :
    (lengths : List ℕ) (position : ℕ) (table : List HuffmanEntry) (counts : List ℕ)
    → All (λ l. l ≤ 15) lengths
    → Counted 0 (0 + kraft lengths) counts
    → Accepts (build_counted lengths position table false counts)
      ↔ ((1 ≤ kraft lengths) × (kraft lengths ≤ 2 ^ 15))
Counted-kraft lengths position table counts short c =
    let decided = build_Counted-kraft lengths position table counts short c.places in
    let same : weight (tail counts) ≡ kraft lengths = omega (arith, c.weighs) in rw same at decided

-- A tree that may not be empty is built exactly if no code has more than 15 bits, some symbol has a
-- code, and the codes satisfy Kraft's inequality. There are fewer than 2 ^ 16 symbols.
pub build-kraft :
    (lengths : List ℕ) (position : ℕ) (table : List HuffmanEntry)
    → length lengths < 2 ^ 16
    → Accepts (build lengths position table false)
      ↔ (All (λ l. l ≤ 15) lengths × (1 ≤ kraft lengths) × (kraft lengths ≤ 2 ^ 15))
unfolding build
build-kraft lengths position table few = (λ (built, e). forward built e, backward)
  where
    start : Counted (length lengths) 0 (replicate 16 0)
    start = record {
      places = refl;
      below = λ i. omega (arith, get_or-replicate_zero 16 i);
      weighs = refl;
    }

    forward :
        (built : Option Huffman × List HuffmanEntry)
        → build lengths position table false ≡ ok built
        → All (λ l. l ≤ 15) lengths × (1 ≤ kraft lengths) × (kraft lengths ≤ 2 ^ 15)
    forward built e =
        let (counts, counted, rest) =
          >>=-eq-ok (count_lengths position (replicate 16 0) lengths)
            (build_counted lengths position table false) e in
        let short =
          (Ensures-ok (count_lengths-Counts position (replicate 16 0) lengths refl) counted).0 in
        let (counts', counted', c) = count_lengths-kraft position 0 _ lengths start short in
        let same : counts' ≡ counts = cc (counted, counted') in
        let (pos, le) =
          (Counted-kraft lengths position table counts short (rw same at c)).0 (built, rest) in
        (short, pos, le)

    backward :
        All (λ l. l ≤ 15) lengths × (1 ≤ kraft lengths) × (kraft lengths ≤ 2 ^ 15)
        → Accepts (build lengths position table false)
    backward (short, pos, le) =
        let (counts, counted, c) = count_lengths-kraft position 0 _ lengths start short in
        let (built, e) = (Counted-kraft lengths position table counts short c).1 (pos, le) in
        (built, rw counted e)
