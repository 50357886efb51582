-- ===== src/Metadata/Inflate/Tests.antt =====
-- Runs of the decoder on the streams of the unit tests.
use open_sdbl.Prelude.{
  ℕ, ◌≡◌, ◌≤◌, ◌^◌, ◌↔◌, refl, false, List, [], ◌∷◌, codes, length, some, All, arith,
}
use open_sdbl.Prelude.Result.{ok}
use open_sdbl.Metadata.Inflate.BitReader.{
  ◌>>=◌, table_at, peek_bits_padded, read_bits, read_u16, read_bytes,
}
use open_sdbl.Metadata.Inflate.Huffman.{
  count_lengths, check_left, build_table, build_counted, build, decode,
}
use open_sdbl.Metadata.Inflate.Lengths.{fixed_lengths, build_at, expect_tree}
use open_sdbl.Metadata.Inflate.Block.{
  stored_bytes, stored_block, next_round, need_tree, copied, compressed_block, copy_back_reference,
}
use open_sdbl.Metadata.Inflate.Stream.{inflate_raw_deflate, inflate_raw_deflate_bounded}
use open_sdbl.Metadata.Inflate.Stream.Total.{inflate-le-limit}
use open_sdbl.Metadata.Inflate.Block.Copy.{copy_bytes, copy_back_reference-copy_bytes}
use open_sdbl.Metadata.Inflate.Huffman.Kraft.{build-kraft, kraft, Accepts}

-- One stored block: the string "stored block data".
abbrev stored_stream : List ℕ
stored_stream = 0x01 ∷ 0x11 ∷ 0x00 ∷ 0xee ∷ 0xff ∷ codes "stored block data"

stored_run : inflate_raw_deflate stored_stream ≡ ok (codes "stored block data")
unfolding ◌>>=◌ inflate_raw_deflate stored_block stored_bytes read_bits peek_bits_padded read_u16
    read_bytes
stored_run = refl

abbrev fixed_stream : List ℕ
fixed_stream =
    0x4b ∷ 0xcb ∷ 0xac ∷ 0x48 ∷ 0x4d ∷ 0x51 ∷ 0xc8 ∷ 0x28 ∷ 0x4d ∷ 0x4b ∷ 0xcb ∷ 0x4d ∷ 0xcc ∷ 0x53
    ∷ 0xc8 ∷ 0x4d ∷ 0x2d ∷ 0x49 ∷ 0x4c ∷ 0x49 ∷ 0x2c ∷ 0x49 ∷ 0x84 ∷ 0x33 ∷ 0x00 ∷ []

fixed_run : inflate_raw_deflate fixed_stream ≡ ok (codes "fixed huffman metadata metadata")
unfolding ◌>>=◌ table_at inflate_raw_deflate compressed_block read_bits peek_bits_padded build
    count_lengths build_counted check_left build_table decode fixed_lengths copy_back_reference
    next_round need_tree copied build_at expect_tree
fixed_run = refl

bounded_run :
    inflate_raw_deflate_bounded fixed_stream 40 ≡ ok (codes "fixed huffman metadata metadata")
unfolding ◌>>=◌ table_at inflate_raw_deflate_bounded compressed_block read_bits peek_bits_padded
    build count_lengths build_counted check_left build_table decode fixed_lengths
    copy_back_reference next_round need_tree copied build_at expect_tree
bounded_run = refl

inflate-le-limit_example : length (codes "fixed huffman metadata metadata") ≤ 40
inflate-le-limit_example =
    inflate-le-limit fixed_stream 40 (codes "fixed huffman metadata metadata") bounded_run

copy_back_reference-copy_bytes_example :
    copy_back_reference (1 ∷ (2 ∷ (3 ∷ []))) 2 5 ≡ some (copy_bytes 5 2 (1 ∷ (2 ∷ (3 ∷ []))))
copy_back_reference-copy_bytes_example =
    copy_back_reference-copy_bytes (1 ∷ (2 ∷ (3 ∷ []))) 2 5 (omega arith) (omega arith)

build-kraft_example : Accepts (build (1 ∷ (2 ∷ (2 ∷ []))) 0 [] false) ↔ (
    All (λ l. l ≤ 15) (1 ∷ (2 ∷ (2 ∷ [])))
    × (1 ≤ kraft (1 ∷ (2 ∷ (2 ∷ []))))
    × (kraft (1 ∷ (2 ∷ (2 ∷ []))) ≤ 2 ^ 15))
build-kraft_example = build-kraft (1 ∷ (2 ∷ (2 ∷ []))) 0 [] (omega arith)
