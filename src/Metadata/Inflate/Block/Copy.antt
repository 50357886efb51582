-- ===== src/Metadata/Inflate/Block/Copy.antt =====
-- `copy_back_reference` copies in growing chunks what RFC 1951 defines byte by byte.
use open_sdbl.Prelude.{
  ℕ, zero, suc, ◌+◌, ◌-◌, ◌≤◌, ◌<◌, min, ◌≡◌, refl, sym, ap, ◌∙◌, List, [], ◌∷◌, ◌++◌, some, arith,
  length, length-append, length-take, length-drop, get_or, take, drop, append-nil, append_assoc,
  get_or-append_left, get_or-append_right, get_or-take, get_or-drop, take_snoc,
}
use native.Mathlib.Decide.{dec_lt}
use open_sdbl.Metadata.Inflate.Block.{copy_rounds, copy_back_reference}

-- The next byte is the one `distance` bytes back, `count` times over.
pub copy_bytes : ℕ → ℕ → List ℕ → List ℕ
copy_bytes zero distance output = output
copy_bytes (suc count) distance output =
    copy_bytes count distance (output ++ get_or output (length output - distance) 0 ∷ [])

copy_bytes_add :
    (m n distance : ℕ) (output : List ℕ)
    → copy_bytes (m + n) distance output ≡ copy_bytes n distance (copy_bytes m distance output)
unfolding copy_bytes
copy_bytes_add zero n distance output = let none_left : 0 + n ≡ n = omega arith in rw none_left
copy_bytes_add (suc m) n distance output =
    let next : suc m + n ≡ suc (m + n) = omega arith in rw next (copy_bytes_add m n distance _)

copy_bytes_snoc :
    (n distance : ℕ) (output : List ℕ)
    → copy_bytes (suc n) distance output ≡ (
        let so_far = copy_bytes n distance output in
        so_far ++ get_or so_far (length so_far - distance) 0 ∷ [])
unfolding copy_bytes
copy_bytes_snoc n distance output =
    let next : suc n ≡ n + 1 = omega arith in
    ap (λ k. copy_bytes k distance output) next ∙ copy_bytes_add n 1 distance output

-- From `start` on the output repeats with period `distance`, and ends with a whole period.
record Periodic (start distance : ℕ) (output : List ℕ) : Type 0 where
  pos : 0 < distance
  whole : start + distance ≤ length output
  repeats :
      (i : ℕ)
      → start ≤ i
      → i + distance < length output
      → get_or output (i + distance) 0 ≡ get_or output i 0
  ends :
      (j : ℕ)
      → j < distance
      → get_or output (length output - distance + j) 0 ≡ get_or output (start + j) 0

module _ (start distance : ℕ) (output : List ℕ) (p : Periodic start distance output) where
  chunk : ℕ → List ℕ
  chunk k = output ++ take k (drop start output)

  length-chunk : (k : ℕ) → k + start ≤ length output → length (chunk k) ≡ length output + k
  unfolding chunk
  length-chunk k h =
      length-append output _
      ∙ omega (arith, length-take k (drop start output), length-drop start output)

  get_or-chunk :
      (k i j : ℕ)
      → j < k
      → i ≡ length output + j
      → get_or (chunk k) i 0 ≡ get_or output (start + j) 0
  unfolding chunk
  get_or-chunk k i j h e = rw e (
      get_or-append_right output _ j 0
      ∙ get_or-take k (drop start output) j 0 h
      ∙ get_or-drop start output j 0)

  get_or-chunk_old : (k i : ℕ) → i < length output → get_or (chunk k) i 0 ≡ get_or output i 0
  unfolding chunk
  get_or-chunk_old k i h = get_or-append_left output _ i 0 h

  repeats_from :
      (i j : ℕ)
      → start ≤ i
      → j ≡ i + distance
      → j < length output
      → get_or output j 0 ≡ get_or output i 0
  repeats_from i j s e h = rw e (p.repeats i s (omega arith))

  ends_at :
      (i j : ℕ)
      → j < distance
      → i + distance ≡ length output + j
      → get_or output i 0 ≡ get_or output (start + j) 0
  ends_at i j h e =
      let place : i ≡ length output - distance + j = omega (arith, p.whole) in rw place (p.ends j h)

  -- The byte `distance` back from the end of a chunk is the next byte of the chunk.
  chunk_next :
      (k i : ℕ)
      → k + start < length output
      → i + distance ≡ length output + k
      → get_or (chunk k) i 0 ≡ get_or output (start + k) 0
  chunk_next k i h e = elim (dec_lt k distance) [
    | yes before ↦ get_or-chunk_old k i (omega arith) ∙ ends_at i k before e
    | no behind ↦
        get_or-chunk k i (k - distance) (omega (arith, p.pos)) (omega arith)
        ∙ sym (
            repeats_from (start + (k - distance)) (start + k) (omega arith) (omega arith)
              (omega arith))
  ]

  next_chunk :
      (k : ℕ)
      → k + start < length output
      → chunk k ++ get_or output (start + k) 0 ∷ [] ≡ chunk (suc k)
  unfolding chunk
  next_chunk k h =
      let within : k < length (drop start output) = omega (arith, length-drop start output) in
      append_assoc output _ _
      ∙ ap (◌++◌ output)
          (rw (← get_or-drop start output k 0) (sym (take_snoc k (drop start output) 0 within)))

  copy_bytes-chunk : (k : ℕ) → k + start ≤ length output → copy_bytes k distance output ≡ chunk k
  copy_bytes-chunk zero h = unfold copy_bytes chunk in sym (append-nil output)
  copy_bytes-chunk (suc k) h =
      let ih = copy_bytes-chunk k (omega arith) in
      let back : length (chunk k) - distance + distance ≡ length output + k =
        omega (arith, length-chunk k (omega arith), p.whole) in
      copy_bytes_snoc k distance output
      ∙ rw ih (rw (chunk_next k _ (omega arith) back) (next_chunk k (omega arith)))

  -- All that stands behind `start`, as one chunk.
  whole_chunk : List ℕ
  whole_chunk = chunk (length output - start)

  length-whole_chunk : length whole_chunk ≡ length output + (length output - start)
  unfolding whole_chunk
  length-whole_chunk = length-chunk _ (omega (arith, p.whole))

  get_or-whole_chunk :
      (i j : ℕ)
      → j + start < length output
      → i ≡ length output + j
      → get_or whole_chunk i 0 ≡ get_or output (start + j) 0
  unfolding whole_chunk
  get_or-whole_chunk i j h e = get_or-chunk _ i j (omega arith) e

  get_or-whole_chunk_old : (i : ℕ) → i < length output → get_or whole_chunk i 0 ≡ get_or output i 0
  unfolding whole_chunk
  get_or-whole_chunk_old i h = get_or-chunk_old _ i h

  whole_chunk_repeats :
      (i : ℕ)
      → start ≤ i
      → i + distance < length output + (length output - start)
      → get_or whole_chunk (i + distance) 0 ≡ get_or whole_chunk i 0
  whole_chunk_repeats i s h = elim (dec_lt i (length output)) [
    | yes old ↦ elim (dec_lt (i + distance) (length output)) [
      | yes also_old ↦
          get_or-whole_chunk_old (i + distance) also_old
          ∙ p.repeats i s also_old
          ∙ sym (get_or-whole_chunk_old i old)
      | no across ↦
          let j = i + distance - length output in
          get_or-whole_chunk (i + distance) j (omega (arith, p.whole)) (omega arith)
          ∙ sym (ends_at i j (omega arith) (omega arith))
          ∙ sym (get_or-whole_chunk_old i old)
    ]
    | no copied ↦
        let j = i - length output in
        get_or-whole_chunk (i + distance) (j + distance) (omega arith) (omega arith)
        ∙ repeats_from (start + j) (start + (j + distance)) (omega arith) (omega arith)
            (omega arith)
        ∙ sym (get_or-whole_chunk i j (omega arith) (omega arith))
  ]

  whole_chunk_ends :
      (i j : ℕ)
      → j < distance
      → i + distance ≡ length output + (length output - start) + j
      → get_or whole_chunk i 0 ≡ get_or whole_chunk (start + j) 0
  whole_chunk_ends i j h e =
      let k = length output - start - distance + j in
      let fits = p.whole in
      get_or-whole_chunk i k (omega arith) (omega arith)
      ∙ ends_at (start + k) j h (omega arith)
      ∙ sym (get_or-whole_chunk_old (start + j) (omega arith))

  -- A chunk of everything behind `start` keeps the period.
  whole_chunk-Periodic : Periodic start distance whole_chunk
  whole_chunk-Periodic = record {
    pos = p.pos;
    whole = omega (arith, length-whole_chunk, p.whole);
    repeats = λ i s h. whole_chunk_repeats i s (omega (arith, length-whole_chunk));
    ends = λ j h. whole_chunk_ends _ j h (omega (arith, length-whole_chunk, p.whole));
  }

copy_rounds_done :
    (fuel start : ℕ) (output : List ℕ) → copy_rounds fuel start 0 output ≡ some output
unfolding copy_rounds
copy_rounds_done zero start output = refl
copy_rounds_done (suc fuel) start output = refl

copy_rounds_step :
    (fuel start distance rest copied : ℕ) (output : List ℕ) (p : Periodic start distance output)
    → copied ≡ min (suc rest) (length output - start)
    → copy_rounds (suc fuel) start (suc rest) output
      ≡ copy_rounds fuel start (suc rest - copied) (chunk start distance output p copied)
unfolding copy_rounds chunk
copy_rounds_step fuel start distance rest copied output p e = rw e (ground arith)

copy_rounds-copy_bytes :
    (fuel start distance remaining : ℕ) (output : List ℕ)
    → Periodic start distance output
    → remaining ≤ fuel
    → copy_rounds fuel start remaining output ≡ some (copy_bytes remaining distance output)
copy_rounds-copy_bytes fuel start distance zero output p h =
    unfold copy_bytes in copy_rounds_done fuel start output
copy_rounds-copy_bytes zero start distance (suc rest) output p h = absurd (omega arith)
copy_rounds-copy_bytes (suc fuel) start distance (suc rest) output p h =
    let full = length output - start in
    let fits = p.whole in
    elim (dec_lt full (suc rest)) [
      | yes more ↦
          let split : suc rest ≡ full + (suc rest - full) = omega arith in
          copy_rounds_step fuel start distance rest full output p (omega arith)
          ∙ copy_rounds-copy_bytes fuel start distance (suc rest - full)
              (chunk start distance output p full)
              (unfold whole_chunk in whole_chunk-Periodic start distance output p)
              (omega (arith, p.pos))
          ∙ ap some (
              sym (
                ap (λ k. copy_bytes k distance output) split
                ∙ copy_bytes_add full (suc rest - full) distance output
                ∙ rw (copy_bytes-chunk start distance output p full (omega arith))))
      | no last ↦
          let none_left : suc rest - suc rest ≡ 0 = omega arith in
          copy_rounds_step fuel start distance rest (suc rest) output p (omega arith)
          ∙ rw none_left (copy_rounds_done fuel start _)
          ∙ ap some (sym (copy_bytes-chunk start distance output p (suc rest) (omega arith)))
    ]

-- For every distance from 1 to the length of the output, and every count, the chunked copy ends and
-- gives the output followed by `count` bytes, each a copy of the byte `distance` back.
pub copy_back_reference-copy_bytes :
    (output : List ℕ) (distance count : ℕ)
    → 1 ≤ distance
    → distance ≤ length output
    → copy_back_reference output distance count ≡ some (copy_bytes count distance output)
unfolding copy_back_reference
copy_back_reference-copy_bytes output distance count pos le =
    copy_rounds-copy_bytes count (length output - distance) distance count output
      (record {
        pos = pos;
        whole = omega arith;
        repeats = λ i s h. absurd (omega arith);
        ends = λ j h. refl;
      })
      (omega arith)

pub length-copy_bytes :
    (count distance : ℕ) (output : List ℕ)
    → length (copy_bytes count distance output) ≡ length output + count
unfolding copy_bytes
length-copy_bytes zero distance output = omega arith
length-copy_bytes (suc count) distance output =
    let next = output ++ get_or output (length output - distance) 0 ∷ [] in
    omega (
      arith,
      length-copy_bytes count distance next,
      length-append output (get_or output (length output - distance) 0 ∷ []),
    )
