-- ===== src/Lexer/Shape.antt =====
-- The lexical grammar of the query language, and the answers of a scan of src/lexer.rs in its terms.
pub mod Scans
use open_sdbl.Prelude.{
  ℕ, ◌-◌, ◌%◌, ◌≤◌, ◌≡◌, ◌⊎◌, refl, sym, ap, subst, ◌∙◌, Bool, true, false, not, ◌&&◌, ◌||◌, List,
  [], ◌∷◌, ◌++◌, none, some, arith, ◌==◌, if◌then◌else◌, length, All, Bool-cases, inl, inr, if_elim,
}
use open_sdbl.Prelude.Result.{ok, err, stuck}
use open_sdbl.Lexer.Chars.{
  CharTables, byte_length, is_ascii_digit, is_ascii_hexdigit, is_identifier_start,
  is_identifier_continue,
}
use open_sdbl.Lexer.Token.{TokenKind, DiagnosticKind}
use open_sdbl.Lexer.Lookup.{keyword}
use open_sdbl.Lexer.Scan.{
  Lexer, step_over, advance, current_is, next_is, advance_while, token, diagnostic, Scanned, found,
  rejected_at, consume_line_comment, consume_number, string_end, consume_string, pairs_with,
  consume_operator, is_operator, is_punctuation, identifier_kind, consume_identifier,
  consume_parameter, consume_binary, lexeme_between,
}
use open_sdbl.Lexer.Consumed.{
  Consumed, Consumed-trans, Consumed-step_over, Consumed-advance, rest-advance, advance_over-Run,
  Run-first, lexeme-Consumed,
}

-- A text with each quote doubled
abbrev pub escape : List ℕ → List ℕ
escape [] = []
escape (c ∷ cs) = if c == b'"' then b'"' ∷ (b'"' ∷ escape cs) else c ∷ escape cs

module _ (tables : CharTables) where
  abbrev pub Continues : List ℕ → Type 0
  Continues = All (λ c. is_identifier_continue tables c ≡ true)

  abbrev pub Digits : List ℕ → Type 0
  Digits = All (λ c. is_ascii_digit c ≡ true)

  -- The texts of the tokens of a kind.
  pub data Shape : TokenKind → List ℕ → Type 0 where
    word :
        {c : ℕ} {cs : List ℕ}
        → is_identifier_start tables c ≡ true
        → Continues cs
        → Shape (identifier_kind (keyword tables (c ∷ cs))) (c ∷ cs)
    parameter :
        {c : ℕ} {cs : List ℕ}
        → is_identifier_start tables c ≡ true
        → Continues cs
        → Shape TokenKind.parameter (b'&' ∷ (c ∷ cs))
    whole_number : {c : ℕ} {cs : List ℕ} → Digits (c ∷ cs) → Shape TokenKind.number (c ∷ cs)
    decimal :
        {c : ℕ} (cs : List ℕ) (d : ℕ) (ds : List ℕ)
        → Digits (c ∷ cs)
        → Digits (d ∷ ds)
        → Shape TokenKind.number (c ∷ (cs ++ b'.' ∷ (d ∷ ds)))
    binary :
        {x : ℕ} {d : ℕ} {ds : List ℕ}
        → (x == b'x' || x == b'X') ≡ true
        → All (λ h. is_ascii_hexdigit h ≡ true) (d ∷ ds)
        → length (d ∷ ds) % 2 ≡ 0
        → Shape TokenKind.binary (b'0' ∷ (x ∷ (d ∷ ds)))
    string : (content : List ℕ) → Shape TokenKind.string (b'"' ∷ (escape content ++ b'"' ∷ []))
    operator : {c : ℕ} → is_operator c ≡ true → Shape TokenKind.operator (c ∷ [])
    operator_pair :
        {c d : ℕ}
        → is_operator c ≡ true
        → pairs_with c d ≡ true
        → Shape TokenKind.operator (c ∷ (d ∷ []))
    punctuation : {c : ℕ} → is_punctuation c ≡ true → Shape TokenKind.punctuation (c ∷ [])
    comment :
        {cs : List ℕ}
        → All (λ c. not (c == b'\n') ≡ true) cs
        → Shape TokenKind.comment (b'/' ∷ (b'/' ∷ cs))

  pub Shape-nonempty : {kind : TokenKind} {text : List ℕ} → Shape kind text → 1 ≤ length text
  Shape-nonempty (word h k) = omega arith
  Shape-nonempty (parameter h k) = omega arith
  Shape-nonempty (whole_number h) = omega arith
  Shape-nonempty (decimal cs d ds h k) = omega arith
  Shape-nonempty (binary h k e) = omega arith
  Shape-nonempty (string content) = omega arith
  Shape-nonempty (operator h) = omega arith
  Shape-nonempty (operator_pair h k) = omega arith
  Shape-nonempty (punctuation h) = omega arith
  Shape-nonempty (comment h) = omega arith

  -- A token of a kind stands between two positions of the lexer.
  pub record Lexeme (start : Lexer) (kind : TokenKind) (l' : Lexer) : Type 0 where
    pub text : List ℕ
    pub consumed : Consumed text start l'
    pub shape : Shape kind text

  -- A scan at the first character of a token gives that token, or a diagnostic of its position.
  unfoldable pub ScansAt : Lexer → Scanned → Type 0
  ScansAt start (ok (some t), l') =
      (kind : TokenKind) × (t ≡ token start l' kind) × Lexeme start kind l'
  ScansAt start (ok none, l') = start.rest ≡ []
  ScansAt start (err d, l') = (kind : DiagnosticKind) × (d ≡ diagnostic start kind)
  ScansAt start (stuck, l') = ⊥

  pub lexeme :
      {start l' : Lexer} {text : List ℕ} (kind : TokenKind)
      → Consumed text start l'
      → Shape kind text
      → ScansAt start (found start l' kind)
  unfolding ScansAt
  lexeme {text} kind consumed shape =
      (kind, refl, record { text = text; consumed = consumed; shape = shape })
