-- ===== src/Metadata/StoredValue/Tests.antt =====
-- Contents that src/metadata/value_storage.rs reads.
use open_sdbl.Prelude.{
  ℕ, ◌≤◌, ◌≡◌, inl, refl, false, List, [], ◌∷◌, ◌++◌, some, codes, replicate, length, arith,
}
use open_sdbl.Prelude.Result.{ok}
use open_sdbl.Lexer.Lookup.{chars_eq}
use open_sdbl.Metadata.Utf8.Encode.{as_bytes}
use open_sdbl.Metadata.Value.Data.{Value, nil, cons}
use open_sdbl.Metadata.Value.Print.{print}
use open_sdbl.Metadata.StoredValue.Reference.{
  marker, starts_with, parse_stored_value_ref, entry_string, stored_map_entries,
}
use open_sdbl.Metadata.StoredValue.Content.{decoded_stored_value_content, decode_stored_value}
use open_sdbl.Metadata.StoredValue.Decode.{
  decoded_stored_value_content-le-limit, decode_stored_value-print,
}

reference_run :
    parse_stored_value_ref (marker ++ replicate 9 0 ++ replicate 16 0xab ++ 3 ∷ replicate 7 0)
    ≡ some (record { key = replicate 16 0xab; length = 3 })
unfolding parse_stored_value_ref starts_with chars_eq
reference_run = refl

abbrev pair : Value → Value → Value
pair k v = Value.list (cons k (cons v nil))

map_run :
    stored_map_entries (
      Value.list (
        cons (Value.string (codes "#")) (
          cons (Value.atom (codes "1")) (
            cons
              (Value.list (
                cons (Value.atom (codes "1")) (
                  cons
                    (pair (pair (Value.string (codes "S")) (Value.string (codes "k"))) Value.null)
                    nil)))
              nil))))
    ≡ (codes "k", Value.null) ∷ []
unfolding stored_map_entries entry_string chars_eq
map_run = refl

-- A header, and a list of a string in Cyrillic
abbrev header : List ℕ
header = replicate 10 1

abbrev stored_list : Value
stored_list = Value.list (cons (Value.string (0x416 ∷ [])) nil)

abbrev stored_bytes : List ℕ
stored_bytes = b'{' ∷ (b'"' ∷ (0xd0 ∷ (0x96 ∷ (b'"' ∷ (b'}' ∷ [])))))

content_run : decoded_stored_value_content (header ++ stored_bytes) 100 ≡ ok stored_bytes
unfolding decoded_stored_value_content starts_with chars_eq
content_run = refl

decoded_stored_value_content-le-limit_example : length stored_bytes ≤ 100
decoded_stored_value_content-le-limit_example =
    decoded_stored_value_content-le-limit (header ++ stored_bytes) 100 stored_bytes content_run

no_marker_run : starts_with header marker ≡ false
unfolding starts_with chars_eq
no_marker_run = refl

size_run : length (as_bytes (print stored_list [])) ≤ 100
unfolding as_bytes
size_run = omega arith

decode_stored_value-print_example :
    decode_stored_value (header ++ as_bytes (print stored_list [])) 100 ≡ ok stored_list
decode_stored_value-print_example =
    decode_stored_value-print header (cons (Value.string (0x416 ∷ [])) nil) 100 refl no_marker_run
      (refl, (tt, tt)) (omega arith)
      (
        inl (omega arith),
        (inl (omega arith), (inl (omega arith), (inl (omega arith), (inl (omega arith), tt)))),
      )
      size_run
