-- ===== src/Lexer/Scan.antt =====
-- `Lexer` of src/lexer.rs. The slice of the source from the lexer's offset on is `rest`; a lexeme is
-- what stands between the mark's rest and the lexer's.
use open_sdbl.Prelude.{
  ℕ, zero, suc, ◌+◌, ◌-◌, ◌%◌, Bool, true, false, not, ◌&&◌, ◌||◌, List, [], ◌∷◌, Option, none,
  some, ◌==◌, if◌then◌else◌, length, take,
}
use open_sdbl.Prelude.Result.{Result, ok, err, stuck, ◌>>=◌}
use open_sdbl.Lexer.Keyword.{Keyword}
use open_sdbl.Lexer.Token.{
  TokenKind, Token, Diagnostic, DiagnosticKind, unterminated_string, expected_parameter_name,
  invalid_binary_literal, unexpected_character,
}
use open_sdbl.Lexer.Chars.{
  CharTables, len_utf8, is_whitespace, is_ascii_digit, is_ascii_hexdigit, is_identifier_start,
  is_identifier_continue,
}
use open_sdbl.Lexer.Lookup.{keyword}

pub record Lexer : Type 0 where
  pub rest : List ℕ
  pub offset : ℕ
  pub line : ℕ
  pub column : ℕ
  pub finished : Bool

-- `Lexer::new`
abbrev pub new_lexer : List ℕ → Lexer
new_lexer source = record { rest = source; offset = 0; line = 1; column = 1; finished = false }

-- `advance` over a character
abbrev pub step_over : ℕ → List ℕ → Lexer → Lexer
step_over c cs l = record l {
  rest = cs;
  offset = l.offset + len_utf8 c;
  line = if c == b'\n' then l.line + 1 else l.line;
  column = if c == b'\n' then 1 else l.column + 1;
}

abbrev pub advance_from : List ℕ → Lexer → Lexer
advance_from [] l = l
advance_from (c ∷ cs) l = step_over c cs l

abbrev pub advance : Lexer → Lexer
advance l = advance_from l.rest l

-- `current().is_some_and(test)` and `next_character().is_some_and(test)`
abbrev pub current_is : (ℕ → Bool) → List ℕ → Bool
current_is test [] = false
current_is test (c ∷ cs) = test c

abbrev pub next_is : (ℕ → Bool) → List ℕ → Bool
next_is test [] = false
next_is test (c ∷ cs) = current_is test cs

-- `while self.current().is_some_and(test) { self.advance(); }`, over the rest of the source.
unfoldable pub advance_over : (ℕ → Bool) → List ℕ → Lexer → Lexer
advance_over test [] l = l
advance_over test (c ∷ cs) l =
    let more = advance_over test cs (step_over c cs l) in if test c then more else l

abbrev pub advance_while : (ℕ → Bool) → Lexer → Lexer
advance_while test l = advance_over test l.rest l

unfoldable pub skip_whitespace : Lexer → Lexer
unfolding advance_over is_whitespace
skip_whitespace l = advance_while is_whitespace l

-- `self.source[start.offset..self.offset]`
abbrev pub lexeme_between : Lexer → Lexer → List ℕ
lexeme_between start l = take (length start.rest - length l.rest) start.rest

-- The lexer at the mark stands for `Mark`.
abbrev pub token : Lexer → Lexer → TokenKind → Token
token start l kind = record {
  kind = kind;
  lexeme = lexeme_between start l;
  span = record { start = start.offset; end = l.offset; line = start.line; column = start.column };
}

abbrev pub diagnostic : Lexer → DiagnosticKind → Diagnostic
diagnostic start kind = record {
  kind = kind;
  offset = start.offset;
  line = start.line;
  column = start.column;
}

-- A scan gives a token, `none` at the end of the source, or a diagnostic, and moves the lexer.
abbrev pub Scanned : Type 0
Scanned = Result Diagnostic (Option Token) × Lexer

abbrev pub found : Lexer → Lexer → TokenKind → Scanned
found start l kind = (ok (some (token start l kind)), l)

abbrev pub rejected_at : Lexer → Lexer → DiagnosticKind → Scanned
rejected_at start l kind = (err (diagnostic start kind), l)

unfoldable pub consume_line_comment : Lexer → Scanned
consume_line_comment start =
    found start (advance_while (λ c. not (c == b'\n')) (advance (advance start))) TokenKind.comment

unfoldable pub consume_number : Lexer → Lexer
consume_number l =
    let whole = advance_while is_ascii_digit l in
    if current_is (λ c. c == b'.') whole.rest && next_is is_ascii_digit whole.rest
    then advance_while is_ascii_digit (advance whole)
    else whole

-- The lexer behind the closing quote, if there is one, or at the end of the source.
unfoldable pub string_end : List ℕ → Lexer → Bool × Lexer
string_end [] l = (false, l)
string_end (c ∷ []) l = (c == b'"', step_over c [] l)
string_end (c ∷ (d ∷ ds)) l =
    let after = step_over c (d ∷ ds) l in
    let doubled = string_end ds (step_over d ds after) in
    let on = string_end (d ∷ ds) after in
    if c == b'"' then (if d == b'"' then doubled else (true, after)) else on

unfoldable pub consume_string : Lexer → Scanned
unfolding string_end
consume_string start =
    let (closed, l) = string_end (advance start).rest (advance start) in
    if closed then found start l TokenKind.string else rejected_at start l unterminated_string

-- `(Some('<' | '>'), Some('=')) | (Some('<'), Some('>'))`
abbrev pub pairs_with : ℕ → ℕ → Bool
pairs_with first second =
    ((first == b'<' || first == b'>') && second == b'=') || (first == b'<' && second == b'>')

unfoldable pub consume_operator : ℕ → Lexer → Lexer
consume_operator first l =
    let after = advance l in
    if current_is (pairs_with first) after.rest then advance after else after

abbrev pub is_operator : ℕ → Bool
is_operator c =
    c == b'=' || c == b'<' || c == b'>' || c == b'+' || c == b'-' || c == b'*' || c == b'/'

abbrev pub is_punctuation : ℕ → Bool
is_punctuation c =
    c == b'(' || c == b')' || c == b'[' || c == b']' || c == b',' || c == b'.' || c == b';'

abbrev pub identifier_kind : Option Keyword → TokenKind
identifier_kind none = TokenKind.identifier
identifier_kind (some k) = TokenKind.keyword k

module _ (tables : CharTables) where
  unfoldable pub consume_identifier : Lexer → Scanned
  consume_identifier start =
      let l = advance_while (is_identifier_continue tables) (advance start) in
      found start l (identifier_kind (keyword tables (lexeme_between start l)))

  unfoldable pub consume_parameter : Lexer → Scanned
  consume_parameter start =
      let at_name = advance start in
      let l = advance_while (is_identifier_continue tables) (advance at_name) in
      if not (current_is (is_identifier_start tables) at_name.rest)
      then rejected_at start at_name expected_parameter_name
      else found start l TokenKind.parameter

  -- `self.offset - digits_start` counts the bytes of the digits, which are ASCII.
  unfoldable pub consume_binary : Lexer → Scanned
  consume_binary start =
      let digits_start = advance (advance start) in
      let l = advance_while is_ascii_hexdigit digits_start in
      let digit_count = l.offset - digits_start.offset in
      if digit_count == 0
        || not (digit_count % 2 == 0)
        || current_is (is_identifier_continue tables) l.rest
      then rejected_at start l invalid_binary_literal
      else found start l TokenKind.binary

  -- The scan at a character that is no white space.
  unfoldable pub scan_at : ℕ → Lexer → Scanned
  scan_at c start =
      if is_identifier_start tables c
      then consume_identifier start
      else if is_ascii_digit c
      then (if c == b'0' && next_is (λ d. d == b'x' || d == b'X') start.rest
          then consume_binary start
          else found start (consume_number start) TokenKind.number)
      else if c == b'&'
      then consume_parameter start
      else if c == b'"'
      then consume_string start
      else if c == b'/' && next_is (λ d. d == b'/') start.rest
      then consume_line_comment start
      else if is_operator c
      then found start (consume_operator c start) TokenKind.operator
      else if is_punctuation c
      then found start (advance start) TokenKind.punctuation
      else rejected_at start start (unexpected_character c)

  unfoldable pub scan_from : List ℕ → Lexer → Scanned
  scan_from [] start = (ok none, start)
  scan_from (c ∷ cs) start = scan_at c start

  unfoldable pub scan_token : Lexer → Scanned
  unfolding scan_from
  scan_token l = let start = skip_whitespace l in scan_from start.rest start

  abbrev next_token : Lexer → Scanned
  next_token = scan_token

  -- `Iterator::next`: the lexer stops for good at the end and at the first diagnostic.
  abbrev pub finish_scan : Scanned → Option (Result Diagnostic Token) × Lexer
  finish_scan (ok (some t), l) = (some (ok t), l)
  finish_scan (ok none, l) = (none, record l { finished = true })
  finish_scan (err d, l) = (some (err d), record l { finished = true })
  finish_scan (stuck, l) = (some stuck, l)

  unfoldable pub next : Lexer → Option (Result Diagnostic Token) × Lexer
  next l = if l.finished then (none, l) else finish_scan (scan_token l)

  -- `collect` into a `Result`; a token takes a character at least.
  abbrev pub collected :
      Option (Result Diagnostic Token)
      → Result Diagnostic (List Token)
      → Result Diagnostic (List Token)
  collected none more = ok []
  collected (some (ok t)) more = more >>= λ ts. ok (t ∷ ts)
  collected (some (err d)) more = err d
  collected (some stuck) more = stuck

  unfoldable pub collect : ℕ → Lexer → Result Diagnostic (List Token)
  collect zero l = stuck
  collect (suc fuel) l = let after = next l in collected after.0 (collect fuel after.1)

  unfoldable pub tokenize : List ℕ → Result Diagnostic (List Token)
  tokenize source = collect (length source + 1) (new_lexer source)
