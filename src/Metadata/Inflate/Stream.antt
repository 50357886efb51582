-- ===== src/Metadata/Inflate/Stream.antt =====
-- `inflate_raw_deflate` and `inflate_raw_deflate_bounded` of src/metadata/deflate.rs.
pub mod Total
use open_sdbl.Prelude.{ℕ, zero, suc, ◌+◌, ◌*◌, not, List, [], ◌∷◌, ◌==◌, if◌then◌else◌, length}
use open_sdbl.Prelude.Result.{Result, ok, err, stuck}
use open_sdbl.Metadata.Error.{MetadataError, literal, deflate_error}
use open_sdbl.Metadata.Inflate.BitReader.{BitReader, Reads, pure, ◌>>=◌, fail, read_bits}
use open_sdbl.Metadata.Inflate.Lengths.{fixed_lengths, dynamic_lengths}
use open_sdbl.Metadata.Inflate.Block.{stored_block, compressed_block}

-- `DEFAULT_OUTPUT_LIMIT`
abbrev pub default_output_limit : ℕ
default_output_limit = 256 * 1024 * 1024

-- The `match` on the block type
unfoldable pub read_block : ℕ → List ℕ → ℕ → Reads (List ℕ)
read_block kind output limit =
    if kind == 0
    then stored_block output limit
    else if kind == 1
    then (let lengths = fixed_lengths in compressed_block output lengths.0 lengths.1 limit)
    else if kind == 2
    then (do
      (literal_lengths, distance_lengths) ← dynamic_lengths
      compressed_block output literal_lengths distance_lengths limit)
    else fail "reserved DEFLATE block type"

-- The `loop` over the blocks. A block takes three bits at least.
unfoldable pub read_blocks : ℕ → List ℕ → ℕ → Reads (List ℕ)
unfolding read_block
read_blocks zero output limit = λ _. stuck
read_blocks (suc fuel) output limit = do
  final_block ← read_bits 1
  kind ← read_bits 2
  output' ← read_block kind output limit
  let more = read_blocks fuel output' limit
  if not (final_block == 0) then pure output' else more

abbrev finished : Result MetadataError (List ℕ × BitReader) → Result MetadataError (List ℕ)
finished (ok (output, _)) = ok output
finished (err e) = err e
finished stuck = stuck

unfoldable pub inflate_raw_deflate_bounded : List ℕ → ℕ → Result MetadataError (List ℕ)
unfolding read_blocks
inflate_raw_deflate_bounded [] output_limit =
    err (deflate_error 0 (literal "empty raw-DEFLATE resource"))
inflate_raw_deflate_bounded (b ∷ bs) output_limit =
    let input = b ∷ bs in
    finished
      (read_blocks (length input * 8 + 1) [] output_limit (record { input = input; bit = 0 }))

unfoldable pub inflate_raw_deflate : List ℕ → Result MetadataError (List ℕ)
unfolding inflate_raw_deflate_bounded
inflate_raw_deflate input = inflate_raw_deflate_bounded input default_output_limit
