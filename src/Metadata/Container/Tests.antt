-- ===== src/Metadata/Container/Tests.antt =====
-- Containers that src/metadata/container.rs reads.
use open_sdbl.Prelude.{
  ℕ, ◌≤◌, ◌≡◌, ◌≢◌, inl, inr, refl, List, [], ◌∷◌, ◌++◌, none, some, String, codes, replicate,
  length, All, arith,
}
use mathlib.Core.List.{flatten}
use open_sdbl.Prelude.Result.{ok, stuck}
use open_sdbl.Metadata.Utf8.{first_char, decode_from, from_utf8}
use open_sdbl.Metadata.Container.Utf16.{from_utf16, utf16_name}
use open_sdbl.Metadata.Container.Blocks.{
  from_hex, hex, BlockHeader, block_header, turn, walk, document,
}
use open_sdbl.Metadata.Container.Pieces.{Pieces, document-Pieces}
use open_sdbl.Metadata.Container.Table.{chunks_exact, entry_name, find_entry, read_container_entry}
use open_sdbl.Metadata.Container.Entries.{
  Answers, read_container_entry-Answers, read_container_entry-le-limit,
}
use open_sdbl.Metadata.Container.Ends.{read_container_entry-ne-stuck}
use open_sdbl.Metadata.Container.Names.{encode_utf16, le_units, utf16_name-encode_utf16}
use open_sdbl.Metadata.Container.Setting.{
  value, decode_common_setting, decode_common_setting-Parses, decode_common_setting-ne-stuck,
}
use open_sdbl.Metadata.Value.Data.{Value, discards}
use open_sdbl.Metadata.Value.Parse.{
  skip_from, trim_start, trim_end, atom_from, parse_atom, parse_list, parse_value, list_items,
  parse, parse_serialized,
}
use open_sdbl.Lexer.Chars.{is_whitespace}
use open_sdbl.Lexer.Lookup.{chars_eq}

abbrev block_of : String → String → String → List ℕ → List ℕ
block_of total block next bytes =
    (13 ∷ (10 ∷ codes total))
    ++ (b' ' ∷ codes block)
    ++ (b' ' ∷ codes next)
    ++ (b' ' ∷ (13 ∷ (10 ∷ [])))
    ++ bytes

-- A table of one entry, its description, and its document in two blocks
abbrev small_container : List ℕ
small_container =
    replicate 16 0
    ++ block_of "0000000c" "0000000c" "7fffffff"
        (59 ∷ (0 ∷ (0 ∷ (0 ∷ (114 ∷ (0 ∷ (0 ∷ (0 ∷ (0xff ∷ (0xff ∷ (0xff ∷ (0x7f ∷ []))))))))))))
    ++ block_of "00000018" "00000018" "7fffffff" (replicate 20 0 ++ (b'a' ∷ (0 ∷ (0 ∷ (0 ∷ [])))))
    ++ block_of "00000003" "00000002" "00000093" (1 ∷ (2 ∷ []))
    ++ block_of "00000000" "00000010" "7fffffff" (3 ∷ [])

-- A table of two entries, of which the second is asked for: its descriptions are "x" and "a".
abbrev two_entry_container : List ℕ
two_entry_container =
    replicate 16 0
    ++ block_of "00000018" "00000018" "7fffffff" (
        71
        ∷ (0
            ∷ (0
                ∷ (0
                    ∷ (126
                        ∷ (0
                            ∷ (0
                                ∷ (0
                                    ∷ (0xff
                                        ∷ (0xff
                                            ∷ (0xff
                                                ∷ (0x7f
                                                    ∷ (181
                                                        ∷ (0
                                                            ∷ (0
                                                            ∷ (0
                                                            ∷ (236
                                                            ∷ (0
                                                            ∷ (0
                                                            ∷ (0
                                                            ∷ (0xff
                                                            ∷ (0xff
                                                            ∷ (0xff
                                                            ∷ (0x7f ∷ []))))))))))))))))))))))))
    ++ block_of "00000018" "00000018" "7fffffff" (replicate 20 0 ++ (b'x' ∷ (0 ∷ (0 ∷ (0 ∷ [])))))
    ++ block_of "00000018" "00000018" "7fffffff" (replicate 20 0 ++ (b'y' ∷ (0 ∷ (0 ∷ (0 ∷ [])))))
    ++ block_of "00000018" "00000018" "7fffffff" (replicate 20 0 ++ (b'a' ∷ (0 ∷ (0 ∷ (0 ∷ [])))))
    ++ block_of "00000003" "00000003" "7fffffff" (1 ∷ (2 ∷ (3 ∷ [])))

abbrev three_bytes : List ℕ
three_bytes = 1 ∷ (2 ∷ (3 ∷ []))

document_run : document small_container 114 0 100 ≡ ok (1 ∷ (2 ∷ (3 ∷ [])))
unfolding from_hex hex block_header turn walk document first_char decode_from from_utf8
document_run = refl

entry_run : read_container_entry small_container (codes "a") 100 ≡ ok (some (1 ∷ (2 ∷ (3 ∷ []))))
unfolding from_hex hex block_header turn walk document first_char decode_from from_utf8 chunks_exact
    entry_name find_entry read_container_entry from_utf16 utf16_name chars_eq
entry_run = refl

no_entry_run : read_container_entry small_container (codes "b") 100 ≡ ok none
unfolding from_hex hex block_header turn walk document first_char decode_from from_utf8 chunks_exact
    entry_name find_entry read_container_entry from_utf16 utf16_name chars_eq
no_entry_run = refl

second_entry_run : read_container_entry two_entry_container (codes "a") 100 ≡ ok (some three_bytes)
unfolding from_hex hex block_header turn walk document first_char decode_from from_utf8 chunks_exact
    entry_name find_entry read_container_entry from_utf16 utf16_name chars_eq
second_entry_run = refl

document-Pieces_example :
    (h : BlockHeader) × (block_header small_container 114 0 ≡ ok h)
    × Pieces small_container 0 114 h.total three_bytes
    × (length three_bytes ≡ h.total)
    × (length three_bytes ≤ 100)
document-Pieces_example = document-Pieces small_container 0 100 114 three_bytes document_run

read_container_entry-Answers_example :
    (entries : List (List ℕ)) × (document two_entry_container 16 0x200 100 ≡ ok (flatten entries))
    × All (λ entry. length entry ≡ 12) entries
    × Answers two_entry_container (codes "a") 100 entries (some three_bytes)
read_container_entry-Answers_example =
    read_container_entry-Answers two_entry_container (codes "a") 100 (some three_bytes)
      second_entry_run

read_container_entry-le-limit_example : length three_bytes ≤ 100
read_container_entry-le-limit_example =
    read_container_entry-le-limit small_container (codes "a") 100 three_bytes entry_run

read_container_entry-ne-stuck_example : read_container_entry small_container (codes "a") 100 ≢ stuck
read_container_entry-ne-stuck_example =
    read_container_entry-ne-stuck small_container (codes "a") 100

-- "$Ж" and a character outside the basic plane
abbrev wide_name : List ℕ
wide_name = 0x24 ∷ (0x416 ∷ (0x1f600 ∷ []))

utf16_name-encode_utf16_example :
    utf16_name (le_units (encode_utf16 wide_name) ++ 0 ∷ (0 ∷ (7 ∷ []))) ≡ ok wide_name
utf16_name-encode_utf16_example = utf16_name-encode_utf16 wide_name (7 ∷ []) (
  (omega arith, inl (omega arith)),
  ((omega arith, inl (omega arith)), ((omega arith, inr (omega arith, omega arith)), tt)),
)

-- A setting whose root stream is {1}
abbrev setting_container : List ℕ
setting_container =
    replicate 16 0
    ++ block_of "0000000c" "0000000c" "7fffffff"
        (59 ∷ (0 ∷ (0 ∷ (0 ∷ (128 ∷ (0 ∷ (0 ∷ (0 ∷ (0xff ∷ (0xff ∷ (0xff ∷ (0x7f ∷ []))))))))))))
    ++ block_of "00000026" "00000026" "7fffffff"
        (replicate 20 0 ++ le_units (encode_utf16 (codes "$Stream$")) ++ (0 ∷ (0 ∷ [])))
    ++ block_of "00000003" "00000003" "7fffffff" (codes "{1}")

setting_run : decode_common_setting setting_container 1000 ≡ ok (value (codes "{1}"))
unfolding decode_common_setting from_hex hex block_header turn walk document first_char decode_from
    from_utf8 chunks_exact entry_name find_entry read_container_entry from_utf16 utf16_name chars_eq
    parse_serialized parse parse_value list_items parse_list skip_from trim_start trim_end atom_from
    parse_atom discards is_whitespace le_units encode_utf16
setting_run = refl

decode_common_setting-Parses_example : (v : Value) × (parse_serialized (codes "{1}") ≡ ok v)
decode_common_setting-Parses_example =
    decode_common_setting-Parses setting_container 1000 (value (codes "{1}")) setting_run

decode_common_setting-ne-stuck_example : decode_common_setting setting_container 1000 ≢ stuck
decode_common_setting-ne-stuck_example = decode_common_setting-ne-stuck setting_container 1000
