-- ===== src/Metadata/Value/Parse.antt =====
-- The `Parser` of src/metadata/value.rs.
use open_sdbl.Prelude.{
  ℕ, zero, suc, ◌+◌, Bool, true, false, not, ◌&&◌, ◌||◌, List, [], ◌∷◌, ◌++◌, leb, ltb, ◌==◌,
  if◌then◌else◌, length,
}
use open_sdbl.Prelude.Result.{Result, ok, err, stuck, ◌>>=◌}
use open_sdbl.Metadata.Error.{MetadataError, literal, formatted, serialization_error, utf8_error}
use open_sdbl.Metadata.Utf8.{from_utf8}
use open_sdbl.Metadata.Value.Data.{Value, Values, nil, cons, snoc, discards}
use open_sdbl.Lexer.Chars.{len_utf8, is_whitespace}

pub record Parser : Type 0 where
  pub rest : List ℕ
  pub offset : ℕ
  pub identity_only : Bool

abbrev pub new_parser : List ℕ → Parser
new_parser input = record { rest = input; offset = 0; identity_only = false }

-- The parser behind its next character
abbrev pub step_from : List ℕ → Parser → Parser
step_from [] p = p
step_from (c ∷ cs) p = record p { rest = cs; offset = p.offset + len_utf8 c }

abbrev pub step : Parser → Parser
step p = step_from p.rest p

abbrev pub Parsed : Type 0 → Type 0
Parsed A = Result MetadataError (A × Parser)

-- `u8::is_ascii_whitespace`, which has no vertical tab
abbrev pub is_ascii_whitespace : ℕ → Bool
is_ascii_whitespace c = c == 0x20 || c == 0x09 || c == 0x0a || c == 0x0c || c == 0x0d

abbrev pub is_skipped : ℕ → Bool
is_skipped c = if ltb c 0x80 then is_ascii_whitespace c else is_whitespace c

unfoldable pub skip_from : List ℕ → Parser → Parser
skip_from [] p = p
skip_from (c ∷ cs) p =
    let more = skip_from cs (step_from (c ∷ cs) p) in if is_skipped c then more else p

abbrev pub skip_whitespace : Parser → Parser
skip_whitespace p = skip_from p.rest p

-- `ensure_serialized_depth` of src/metadata/mod.rs
abbrev pub serialized_nesting_limit : ℕ
serialized_nesting_limit = 512

abbrev pub ensure_serialized_depth : ℕ → ℕ → Result MetadataError (Unit {0})
ensure_serialized_depth depth offset =
    if leb serialized_nesting_limit depth
    then err (
        serialization_error offset
          (formatted "metadata nesting depth exceeds limit of " serialized_nesting_limit ""))
    else ok tt

-- `string`, from behind the opening quote: the text so far, and the parser. A quote that is missing
-- is reported where the segment that lacks it begins.
unfoldable pub string_from : ℕ → List ℕ → List ℕ → Parser → Parsed Value
string_from segment text [] p =
    err (serialization_error segment (literal "unterminated metadata string"))
string_from segment text (c ∷ []) p =
    if c == b'"'
    then ok (Value.string text, step_from (c ∷ []) p)
    else err (serialization_error segment (literal "unterminated metadata string"))
string_from segment text (c ∷ (d ∷ ds)) p =
    let after = step_from (c ∷ (d ∷ ds)) p in
    let both = step_from (d ∷ ds) after in
    let doubled = string_from both.offset (text ++ b'"' ∷ []) ds both in
    let on = string_from segment (text ++ c ∷ []) (d ∷ ds) after in
    if c == b'"' then (if d == b'"' then doubled else ok (Value.string text, after)) else on

abbrev pub parse_string : Parser → Parsed Value
parse_string p = string_from (step p).offset [] (step p).rest (step p)

-- `str::trim`
unfoldable pub trim_start : List ℕ → List ℕ
trim_start [] = []
trim_start (c ∷ cs) = let rest = trim_start cs in if is_whitespace c then rest else c ∷ cs

abbrev pub keep : ℕ → List ℕ → List ℕ
keep c [] = if is_whitespace c then [] else c ∷ []
keep c (d ∷ ds) = c ∷ (d ∷ ds)

unfoldable pub trim_end : List ℕ → List ℕ
trim_end [] = []
trim_end (c ∷ cs) = keep c (trim_end cs)

abbrev pub ends_atom : ℕ → Bool
ends_atom c = c == b',' || c == b'}' || c == b'{'

-- The characters of an atom, and the parser behind them
unfoldable pub atom_from : List ℕ → Parser → List ℕ × Parser
atom_from [] p = ([], p)
atom_from (c ∷ cs) p =
    let more = atom_from cs (step_from (c ∷ cs) p) in
    if ends_atom c then ([], p) else (c ∷ more.0, more.1)

abbrev pub atom_value : ℕ → List ℕ → Parser → Parsed Value
atom_value start [] p = err (serialization_error start (literal "empty metadata atom"))
atom_value start (c ∷ cs) p = ok (Value.atom (c ∷ cs), p)

unfoldable pub parse_atom : Parser → Parsed Value
parse_atom p =
    let read = atom_from p.rest p in atom_value p.offset (trim_end (trim_start read.0)) read.1

-- What `value` and the loop of `list` look at: the next byte.
pub data Next : Type 0 where
  at_end at_brace at_close at_comma at_quote at_other : Next

abbrev pub next_of : List ℕ → Next
next_of [] = at_end
next_of (c ∷ cs) =
    if c == b'{'
    then at_brace
    else if c == b'}'
    then at_close
    else if c == b','
    then at_comma
    else if c == b'"'
    then at_quote
    else at_other

-- `list`, and `value` on top of it, over the loop `items` that reads a list's members.
abbrev pub Items : Type 0
Items = ℕ → Values → Bool → Parser → Parsed Value

unfoldable pub parse_list : Items → ℕ → Parser → Parsed Value
parse_list items depth p =
    ensure_serialized_depth depth p.offset >>= λ _. items depth nil true (skip_whitespace (step p))

abbrev pub value_at : Items → ℕ → Parser → Next → Parsed Value
value_at items depth p at_brace = parse_list items depth p
value_at items depth p at_quote = parse_string p
value_at items depth p at_comma = ok (Value.null, p)
value_at items depth p at_close = ok (Value.null, p)
value_at items depth p at_other = parse_atom p
value_at items depth p at_end =
    err (serialization_error p.offset (literal "unexpected end of metadata"))

unfoldable pub parse_value : Items → ℕ → Parser → Parsed Value
parse_value items depth p = value_at items depth p (next_of p.rest)

abbrev pub push : Bool → Values → Value → Values
push identity_only values v = if discards identity_only values then values else snoc values v

-- A member that was read goes into the list; the next must follow a comma.
abbrev pub is_nil : Values → Bool
is_nil nil = true
is_nil (cons v vs) = false

abbrev pub closed : Bool → Values → Value
closed expecting values =
    if not expecting || is_nil values
    then Value.list values
    else Value.list (snoc values Value.null)

abbrev pub expected_comma : Parser → Parsed Value
expected_comma p =
    err (serialization_error p.offset (literal "expected ',' or '}' in metadata list"))

abbrev pub member : Items → ℕ → Values → Bool → Parser → Parsed Value
member again depth values expecting here =
    if expecting
    then (parse_value again (suc depth) here >>= λ (v, after).
        again depth (push here.identity_only values v) false after)
    else expected_comma here

-- A round of the loop, at the next byte
abbrev pub items_at : Items → ℕ → Values → Bool → Parser → Next → Parsed Value
items_at again depth values expecting here at_end =
    err (serialization_error here.offset (literal "unterminated metadata list"))
items_at again depth values expecting here at_close = ok (closed expecting values, step here)
items_at again depth values expecting here at_comma =
    again depth (if expecting then snoc values Value.null else values) true (step here)
items_at again depth values expecting here at_brace = member again depth values expecting here
items_at again depth values expecting here at_quote = member again depth values expecting here
items_at again depth values expecting here at_other = member again depth values expecting here

-- A round passes over a character at least, or it is the last.
unfoldable pub list_items : ℕ → Items
list_items zero depth values expecting p = stuck
list_items (suc fuel) depth values expecting p =
    let here = skip_whitespace p in
    items_at (list_items fuel) depth values expecting here (next_of here.rest)

-- `value` at the head of an input
abbrev pub value_within : ℕ → Parser → Parsed Value
value_within fuel p = parse_value (list_items fuel) 0 p

abbrev pub complete_at : Value → Parser → List ℕ → Result MetadataError Value
complete_at v here [] = ok v
complete_at v here (c ∷ cs) =
    err (serialization_error here.offset (literal "unexpected trailing metadata"))

abbrev pub complete : Value × Parser → Result MetadataError Value
complete (v, p) = complete_at v (skip_whitespace p) (skip_whitespace p).rest

abbrev pub parse_from : List ℕ → Parser → Result MetadataError Value
parse_from [] p = err (serialization_error p.offset (literal "empty metadata serialization"))
parse_from (c ∷ cs) p = value_within (length (c ∷ cs) + 1) p >>= complete

unfoldable pub parse : Parser → Result MetadataError Value
parse p = parse_from (skip_whitespace p).rest (skip_whitespace p)

-- `parse_sequence`, whose loop ends only at the end of the input
abbrev pub past_comma : Parser → Parser
past_comma p = elim (next_of p.rest) [
  | at_comma ↦ step p
  | at_end ↦ p
  | at_brace ↦ p
  | at_close ↦ p
  | at_quote ↦ p
  | at_other ↦ p
]

unfoldable pub sequence_from : ℕ → List Value → Parser → Result MetadataError (List Value)
sequence_from zero values p = stuck
sequence_from (suc fuel) values p =
    let here = skip_whitespace p in
    let more = value_within (length here.rest + 1) here >>= λ (v, after).
    sequence_from fuel (values ++ v ∷ []) (past_comma (skip_whitespace after)) in
    elim here.rest [
      | c ∷ cs ↦ more
      | [] ↦ elim values [
        | [] ↦ err (serialization_error here.offset (literal "empty metadata serialization"))
        | v ∷ vs ↦ ok (v ∷ vs)
      ]
    ]

-- `strip_prefix` of the byte order mark
abbrev pub without_mark : List ℕ → List ℕ
without_mark (a ∷ (b ∷ (c ∷ bytes))) =
    if a == 0xef && b == 0xbb && c == 0xbf then bytes else a ∷ (b ∷ (c ∷ bytes))
without_mark bytes = bytes

abbrev pub text_of {ℓ} :
    {A : Type ℓ} → Result ℕ (List ℕ) → (List ℕ → Result MetadataError A) → Result MetadataError A
text_of (ok text) f = f text
text_of (err offset) f = err (utf8_error offset (literal "metadata is not valid UTF-8"))
text_of stuck f = stuck

unfoldable pub parse_serialized : List ℕ → Result MetadataError Value
parse_serialized input = text_of (from_utf8 (without_mark input)) λ text. parse (new_parser text)

unfoldable pub parse_serialized_sequence : ℕ → List ℕ → Result MetadataError (List Value)
parse_serialized_sequence fuel input =
    text_of (from_utf8 (without_mark input)) λ text. sequence_from fuel [] (new_parser text)

unfoldable pub parse_identity_serialized : List ℕ → Result MetadataError Value
parse_identity_serialized input =
    text_of (from_utf8 (without_mark input))
      λ text. parse (record (new_parser text) { identity_only = true })
