-- ===== src/Metadata/Inflate/Stream/Total.antt =====
-- `inflate_raw_deflate_bounded` ends on every input, without a panic, and within its limit.
use open_sdbl.Prelude.{
  ℕ, zero, suc, ◌+◌, ◌*◌, ◌≤◌, ◌<◌, ◌≡◌, ◌≢◌, refl, List, [], ◌∷◌, not, arith, ◌==◌, length,
}
use open_sdbl.Prelude.Result.{
  Result, ok, err, stuck, Ensures, holds, rejected, Ensures-weaken, Ensures-ok, Ensures-ne-stuck,
}
use open_sdbl.Metadata.Error.{MetadataError}
use open_sdbl.Metadata.Inflate.BitReader.{BitReader, read_bits}
use open_sdbl.Metadata.Inflate.BitReader.Bounds.{
  IsInside, Moved-trans, Moved-then, Moved-refl, Moved-length, Ensures->>=, Ensures-if,
  read_bits-Moved,
}
use open_sdbl.Metadata.Inflate.Lengths.{fixed_lengths, dynamic_lengths}
use open_sdbl.Metadata.Inflate.Lengths.Shape.{dynamic_lengths-Moved}
use open_sdbl.Metadata.Inflate.Block.Limit.{Limited, compressed_block-Limited}
use open_sdbl.Metadata.Inflate.Block.Stored.{stored_block-Limited}
use open_sdbl.Metadata.Inflate.Stream.{
  read_block, read_blocks, finished, inflate_raw_deflate_bounded,
}

read_block-Limited :
    (kind : ℕ) (output : List ℕ) (limit : ℕ) (r : BitReader)
    → IsInside r
    → length output ≤ limit
    → Ensures (Limited limit r) (read_block kind output limit r)
unfolding read_block
read_block-Limited kind output limit r h le =
    Ensures-if (kind == 0) _ _ (λ _. stored_block-Limited output limit r h le)
      λ _.
        Ensures-if (kind == 1) _ _
          (λ _. compressed_block-Limited output fixed_lengths.0 fixed_lengths.1 limit r h le)
          λ _.
            Ensures-if (kind == 2) _ _
              (λ _.
                Ensures->>= dynamic_lengths _ (dynamic_lengths-Moved r h)
                  λ (literals, distances) r1 m1.
                    Ensures-weaken
                      (compressed_block-Limited output literals distances limit r1 m1.inside le)
                      λ (_, r2) (m2, fit). (Moved-then m1 m2 (omega arith), fit))
              (λ _. rejected)

read_blocks-Limited :
    (fuel : ℕ) (output : List ℕ) (limit : ℕ) (r : BitReader)
    → IsInside r
    → length output ≤ limit
    → length r.input * 8 < r.bit + fuel
    → Ensures (Limited limit r) (read_blocks fuel output limit r)
unfolding read_blocks
read_blocks-Limited zero output limit r h le enough = absurd (omega arith)
read_blocks-Limited (suc fuel) output limit r h le enough =
    Ensures->>= (read_bits 1) _ (read_bits-Moved 1 r h) λ final_block r1 (m1, _).
      Ensures->>= (read_bits 2) _ (read_bits-Moved 2 r1 m1.inside) λ kind r2 (m2, _).
        Ensures->>= (read_block kind output limit) _
          (read_block-Limited kind output limit r2 m2.inside le)
          λ output' r3 (m3, le').
            let m = Moved-trans m1 (Moved-trans m2 m3) in
            Ensures-if (not (final_block == 0)) _ _
              (λ _. holds (Moved-then m (Moved-refl m.inside) (omega arith), le'))
              λ _.
                Ensures-weaken
                  (read_blocks-Limited fuel output' limit r3 m3.inside le'
                    (omega (arith, Moved-length m)))
                  λ (_, r4) (m4, fit). (Moved-then m m4 (omega arith), fit)

finished-Ensures :
    (limit : ℕ) (r : BitReader) (x : Result MetadataError (List ℕ × BitReader))
    → Ensures (Limited limit r) x
    → Ensures (λ output. length output ≤ limit) (finished x)
finished-Ensures limit r (ok (output, r')) g = holds (Ensures-ok g refl).1
finished-Ensures limit r (err e) g = rejected
finished-Ensures limit r stuck g = absurd (Ensures-ne-stuck g refl)

inflate-Ensures :
    (input : List ℕ) (limit : ℕ)
    → Ensures (λ output. length output ≤ limit) (inflate_raw_deflate_bounded input limit)
unfolding inflate_raw_deflate_bounded
inflate-Ensures [] limit = rejected
inflate-Ensures (b ∷ bs) limit =
    let r : BitReader = record { input = b ∷ bs; bit = 0 } in
    finished-Ensures limit r _
      (read_blocks-Limited _ [] limit r (omega arith) (omega arith) (omega arith))

pub inflate-ne-stuck :
    (input : List ℕ) (limit : ℕ) → inflate_raw_deflate_bounded input limit ≢ stuck
inflate-ne-stuck input limit = Ensures-ne-stuck (inflate-Ensures input limit)

-- Whatever is decoded has at most `limit` bytes.
pub inflate-le-limit :
    (input : List ℕ) (limit : ℕ) (output : List ℕ)
    → inflate_raw_deflate_bounded input limit ≡ ok output
    → length output ≤ limit
inflate-le-limit input limit output e = Ensures-ok (inflate-Ensures input limit) e
