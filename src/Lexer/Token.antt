-- ===== src/Lexer/Token.antt =====
-- The tokens and the diagnostics of src/lexer.rs.
use open_sdbl.Prelude.{ℕ, List, ◌++◌, codes, decimal}
use open_sdbl.Lexer.Keyword.{Keyword, as_str}

pub record Span : Type 0 where
  pub start : ℕ
  pub end : ℕ
  pub line : ℕ
  pub column : ℕ

pub data TokenKind : Type 0 where
  keyword : Keyword → TokenKind
  identifier parameter string number binary operator punctuation comment : TokenKind

-- `Display` of `TokenKind`
unfoldable pub display_kind : TokenKind → List ℕ
unfolding as_str
display_kind (keyword k) = codes "KEYWORD(" ++ (codes (as_str k) ++ codes ")")
display_kind identifier = codes "IDENTIFIER"
display_kind parameter = codes "PARAMETER"
display_kind string = codes "STRING"
display_kind number = codes "NUMBER"
display_kind binary = codes "BINARY"
display_kind operator = codes "OPERATOR"
display_kind punctuation = codes "PUNCTUATION"
display_kind comment = codes "COMMENT"

pub record Token : Type 0 where
  pub kind : TokenKind
  pub lexeme : List ℕ
  pub span : Span

pub data DiagnosticKind : Type 0 where
  unterminated_string expected_parameter_name invalid_binary_literal : DiagnosticKind
  unexpected_character : ℕ → DiagnosticKind

pub record Diagnostic : Type 0 where
  pub kind : DiagnosticKind
  pub offset : ℕ
  pub line : ℕ
  pub column : ℕ

-- `Display` of `Diagnostic`; `debug_char` is the text of a character under `{:?}`.
abbrev diagnostic_text : (ℕ → List ℕ) → DiagnosticKind → List ℕ
diagnostic_text debug_char unterminated_string = codes "unterminated string literal"
diagnostic_text debug_char expected_parameter_name = codes "expected a parameter name after '&'"
diagnostic_text debug_char invalid_binary_literal =
    codes "binary literal must use 0x followed by an even number of hexadecimal digits"
diagnostic_text debug_char (unexpected_character c) = codes "unexpected character " ++ debug_char c

unfoldable pub display_diagnostic : (ℕ → List ℕ) → Diagnostic → List ℕ
display_diagnostic debug_char d =
    decimal d.line
    ++ (codes ":" ++ (decimal d.column ++ (codes ": " ++ diagnostic_text debug_char d.kind)))
