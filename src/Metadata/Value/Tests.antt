-- ===== src/Metadata/Value/Tests.antt =====
-- Runs of the parser of src/metadata/value.rs.
use open_sdbl.Prelude.{ℕ, ◌≡◌, ◌≢◌, ◌≤◌, refl, false, List, [], ◌∷◌, codes, arith}
use open_sdbl.Prelude.Result.{ok, stuck}
use open_sdbl.Metadata.Utf8.{first_char, decode_from, from_utf8}
use open_sdbl.Metadata.Value.Data.{Value, nil, cons, discards}
use open_sdbl.Metadata.Value.Parse.{
  new_parser, skip_from, string_from, trim_start, trim_end, atom_from, parse_atom, parse_list,
  parse_value, list_items, parse, parse_serialized, sequence_from, serialized_nesting_limit,
}
use open_sdbl.Metadata.Value.Total.{nesting}
use open_sdbl.Metadata.Value.Depth.{parse-ne-stuck, parse-nesting}
use open_sdbl.Metadata.Value.Print.{IsAtom}
use open_sdbl.Metadata.Value.RoundTrip.{parse-print}
use open_sdbl.Metadata.Value.Sequence.{sequence_from-closing_brace}
use open_sdbl.Lexer.Chars.{is_whitespace}

-- {1, {"a""b"},, }
abbrev nested_input : List ℕ
nested_input = codes "{1, {\"a\"\"b\"},, }"

abbrev nested_value : Value
nested_value = Value.list (
    cons (Value.atom (codes "1")) (
      cons (Value.list (cons (Value.string (codes "a\"b")) nil))
        (cons Value.null (cons Value.null nil))))

nested_run : parse (new_parser nested_input) ≡ ok nested_value
unfolding parse parse_value list_items parse_list skip_from string_from trim_start trim_end
    atom_from parse_atom discards is_whitespace
nested_run = refl

bytes_run :
    parse_serialized (0xef ∷ (0xbb ∷ (0xbf ∷ (b'{' ∷ (0xd0 ∷ (0x96 ∷ (b'}' ∷ [])))))))
    ≡ ok (Value.list (cons (Value.atom (0x416 ∷ [])) nil))
unfolding parse_serialized from_utf8 decode_from first_char parse parse_value list_items parse_list
    skip_from trim_start trim_end atom_from parse_atom discards is_whitespace
bytes_run = refl

parse-ne-stuck_example : parse (new_parser nested_input) ≢ stuck
parse-ne-stuck_example = parse-ne-stuck (new_parser nested_input)

parse-nesting_example : nesting nested_value ≤ serialized_nesting_limit
parse-nesting_example = parse-nesting (new_parser nested_input) nested_value nested_run

sequence_from-closing_brace_example : sequence_from 100 [] (new_parser (codes "} {1}")) ≡ stuck
sequence_from-closing_brace_example = sequence_from-closing_brace 100 [] (codes " {1}") 0 false

-- "x""y" and an omitted value inside a list, behind an atom
abbrev printed_value : Value
printed_value = Value.list (
    cons (Value.atom (codes "12"))
      (cons (Value.list (cons (Value.string (codes "x\"y")) (cons Value.null nil))) nil))

twelve-IsAtom : IsAtom b'1' (codes "2")
unfolding trim_end is_whitespace
twelve-IsAtom = record {
  begins = refl;
  no_quote = refl;
  trimmed = refl;
  inside = (refl, (refl, tt));
}

parse-print_example : parse (new_parser (codes "{12,{\"x\"\"y\",}}")) ≡ ok printed_value
parse-print_example =
    parse-print printed_value (refl, (twelve-IsAtom, ((refl, (tt, (tt, tt))), tt))) refl
      (omega arith)
