-- ===== src/Lexer/Tests.antt =====
-- Runs of the lexer of src/lexer.rs, with character tables for ASCII and the Russian letters.
use open_sdbl.Prelude.{
  ℕ, ◌-◌, ◌≡◌, ◌↔◌, some, true, ◌≢◌, refl, ◌||◌, List, [], ◌∷◌, codes, if◌then◌else◌, arith,
}
use open_sdbl.Prelude.Result.{ok, err, stuck}
use open_sdbl.Lexer.Keyword.{Keyword}
use open_sdbl.Lexer.Chars.{
  CharTables, within, is_whitespace, is_ascii_digit, is_ascii_hexdigit, is_identifier_start,
  is_identifier_continue,
}
use open_sdbl.Lexer.Token.{TokenKind, Token, Diagnostic, DiagnosticKind}
use open_sdbl.Lexer.Lookup.{chars_eq, uppercase, keyword_spelling_eq, find_keyword, keyword}
use open_sdbl.Lexer.Scan.{
  advance_over, skip_whitespace, consume_line_comment, consume_number, string_end, consume_string,
  consume_operator, consume_identifier, consume_parameter, consume_binary, scan_at, scan_from,
  scan_token, next, collect, tokenize,
}
use open_sdbl.Lexer.Keywords.{keywords}
use open_sdbl.Lexer.Spellings.{is_capital, Spells, keyword-Spells}
use open_sdbl.Lexer.Tiling.{Tiles, Rejects}
use open_sdbl.Lexer.Tokens.{tokenize-ne-stuck, tokenize-Tiles, tokenize-Rejects}

abbrev russian_tables : CharTables
unfolding is_whitespace
russian_tables = record {
  is_alphabetic = λ c. within b'A' b'Z' c || within b'a' b'z' c || within 0x400 0x45f c;
  is_alphanumeric =
      λ c. within b'0' b'9' c || within b'A' b'Z' c || within b'a' b'z' c || within 0x400 0x45f c;
  to_uppercase = λ c.
      (if within b'a' b'z' c || within 0x430 0x44f c
        then c - 32
        else if within 0x450 0x45f c
        then c - 80
        else c)
      ∷ [];
  alphanumeric_ascii = λ c h. ground arith;
  alphabetic_ascii = λ c h. ground arith;
  whitespace_not_alphanumeric = λ c h. ground arith;
}

-- A query with a keyword, a number, a string and a parameter over two lines
abbrev query : List ℕ
query = codes "SELECT 1.5,\n \"a\"\"b\" = &p"

abbrev placed : TokenKind → List ℕ → ℕ → ℕ → ℕ → ℕ → Token
placed kind text start end line column = record {
  kind = kind;
  lexeme = text;
  span = record { start = start; end = end; line = line; column = column };
}

abbrev query_tokens : List Token
query_tokens =
    placed (TokenKind.keyword Keyword.select) (codes "SELECT") 0 6 1 1
    ∷ placed TokenKind.number (codes "1.5") 7 10 1 8
    ∷ placed TokenKind.punctuation (codes ",") 10 11 1 11
    ∷ placed TokenKind.string (codes "\"a\"\"b\"") 13 19 2 2
    ∷ placed TokenKind.operator (codes "=") 20 21 2 9
    ∷ placed TokenKind.parameter (codes "&p") 22 24 2 11
    ∷ []

query_run : tokenize russian_tables query ≡ ok query_tokens
unfolding tokenize collect next scan_token scan_from scan_at skip_whitespace advance_over
    consume_line_comment consume_number string_end consume_string consume_operator
    consume_identifier consume_parameter consume_binary is_whitespace is_ascii_digit
    is_ascii_hexdigit is_identifier_start is_identifier_continue chars_eq uppercase
    keyword_spelling_eq find_keyword keyword
query_run = refl

abbrev broken_query : List ℕ
broken_query = codes "1 \"a"

abbrev broken_diagnostic : Diagnostic
broken_diagnostic = record {
  kind = DiagnosticKind.unterminated_string;
  offset = 2;
  line = 1;
  column = 3;
}

broken_run : tokenize russian_tables broken_query ≡ err broken_diagnostic
unfolding tokenize collect next scan_token scan_from scan_at skip_whitespace advance_over
    consume_number string_end consume_string is_whitespace is_ascii_digit is_identifier_start
broken_run = refl

tokenize-ne-stuck_example : tokenize russian_tables query ≢ stuck
tokenize-ne-stuck_example = tokenize-ne-stuck russian_tables query

tokenize-Tiles_example : Tiles russian_tables [] query query_tokens
tokenize-Tiles_example = tokenize-Tiles russian_tables query query_tokens query_run

tokenize-Rejects_example : Rejects [] broken_query broken_diagnostic
tokenize-Rejects_example = tokenize-Rejects russian_tables broken_query broken_diagnostic broken_run

keyword_run : keyword russian_tables (codes "выбрать") ≡ some Keyword.select
unfolding russian_tables chars_eq uppercase keyword_spelling_eq find_keyword keyword
keyword_run = refl

russian_capital : (c : ℕ) → is_capital c ≡ true → russian_tables.to_uppercase c ≡ c ∷ []
unfolding russian_tables
russian_capital c h = ground arith

keyword-Spells_example :
    (keyword russian_tables (codes "выбрать") ≡ some Keyword.select)
    ↔ Spells russian_tables russian_capital keywords (codes "выбрать") Keyword.select
keyword-Spells_example =
    keyword-Spells russian_tables russian_capital (codes "выбрать") Keyword.select
