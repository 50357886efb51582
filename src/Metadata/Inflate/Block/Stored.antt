-- ===== src/Metadata/Inflate/Block/Stored.antt =====
-- A stored block of src/metadata/deflate.rs ends, moves forward, and keeps the limit.
use open_sdbl.Prelude.{ℕ, ◌+◌, ◌-◌, ◌≤◌, List, not, arith, ◌==◌, length, length-append}
use open_sdbl.Prelude.Result.{Ensures, holds, rejected, Ensures-weaken}
use open_sdbl.Metadata.Inflate.BitReader.{BitReader, read_u16, align_byte}
use open_sdbl.Metadata.Inflate.BitReader.Bounds.{
  IsInside, Moved, Moved-trans, Moved-then, Ensures->>=, Ensures-if, read_u16-Moved,
  read_bytes-Moved, align_byte-Moved,
}
use open_sdbl.Metadata.Inflate.Block.{reserve_output, stored_bytes, stored_block}
use open_sdbl.Metadata.Inflate.Block.Limit.{Limited, reserve_output-Limited}

stored_bytes-Limited :
    (output : List ℕ) (limit count complement : ℕ) (r : BitReader)
    → IsInside r
    → length output ≤ limit
    → Ensures
        (λ (bytes, r'). Moved 0 r r' × (length output + length bytes ≤ limit))
        (stored_bytes output limit count complement r)
unfolding stored_bytes
stored_bytes-Limited output limit count complement r h le =
    Ensures-if (not (count == 65535 - complement)) _ _ (λ _. rejected)
      λ _.
        Ensures->>= (reserve_output output count limit) _
          (reserve_output-Limited output count limit r h le)
          λ _ r1 (m1, room).
            Ensures-weaken (read_bytes-Moved count r1 m1.inside)
              λ (bytes, r2) (m2, size). (Moved-then m1 m2 (omega arith), omega arith)

pub stored_block-Limited :
    (output : List ℕ) (limit : ℕ) (r : BitReader)
    → IsInside r
    → length output ≤ limit
    → Ensures (Limited limit r) (stored_block output limit r)
unfolding stored_block
stored_block-Limited output limit r h le =
    let m0 = align_byte-Moved r h in
    Ensures->>= read_u16 _ (read_u16-Moved (align_byte r) m0.inside) λ count r1 m1.
      Ensures->>= read_u16 _ (read_u16-Moved r1 m1.inside) λ complement r2 m2.
        let m = Moved-trans m0 (Moved-trans m1 m2) in
        Ensures->>= (stored_bytes output limit count complement) _
          (stored_bytes-Limited output limit count complement r2 m2.inside le)
          λ bytes r3 (m3, fit).
            holds (Moved-then m m3 (omega arith), omega (arith, length-append output bytes))
