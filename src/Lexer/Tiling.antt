-- ===== src/Lexer/Tiling.antt =====
-- The tokens of a source, described by its text alone, and the scans of src/lexer.rs in its terms.
use open_sdbl.Prelude.{
  ℕ, ◌+◌, ◌≡◌, refl, ap, ◌∙◌, Bool, true, false, ◌&&◌, ◌||◌, List, [], ◌∷◌, ◌++◌, arith, ◌==◌,
  if◌then◌else◌, All, if_elim,
}
use open_sdbl.Prelude.Result.{Result, ok, err, stuck}
use open_sdbl.Lexer.Chars.{
  CharTables, byte_length, is_whitespace, is_ascii_digit, is_identifier_start,
}
use open_sdbl.Lexer.Token.{TokenKind, Token, Diagnostic, DiagnosticKind}
use open_sdbl.Lexer.Scan.{
  Lexer, advance, next_is, found, rejected_at, Scanned, consume_line_comment, consume_number,
  consume_string, consume_operator, is_operator, is_punctuation, consume_identifier,
  consume_parameter, consume_binary, scan_at, scan_from, scan_token, skip_whitespace,
}
use open_sdbl.Lexer.Consumed.{newlines, column_after, Consumed-advance, Run, advance_over-Run}
use open_sdbl.Lexer.Shape.{Shape, ScansAt, punctuation, lexeme}
use open_sdbl.Lexer.Shape.Scans.{
  consume_identifier-ScansAt, consume_parameter-ScansAt, consume_number-ScansAt,
  consume_line_comment-ScansAt, consume_binary-ScansAt, consume_operator-ScansAt,
  consume_string-ScansAt,
}

peek_second :
    (k : ℕ) (test : ℕ → Bool) (c : ℕ) (cs : List ℕ) (start : Lexer)
    → start.rest ≡ c ∷ cs
    → (c == k && next_is test start.rest) ≡ true
    → (d : ℕ) × (ds : List ℕ) × (start.rest ≡ k ∷ (d ∷ ds)) × (test d ≡ true)
peek_second k test c [] start e h =
    let no_second : next_is test start.rest ≡ false = ap (next_is test) e in absurd (ground arith)
peek_second k test c (d ∷ ds) start e h =
    let second : next_is test start.rest ≡ test d = ap (next_is test) e in
    let same : c ≡ k = ground arith in (d, ds, e ∙ ap (λ x. x ∷ (d ∷ ds)) same, ground arith)

-- The token of a kind whose text stands behind the text `before`.
abbrev pub token_behind : TokenKind → List ℕ → List ℕ → Token
token_behind kind before text = record {
  kind = kind;
  lexeme = text;
  span = record {
    start = byte_length before;
    end = byte_length before + byte_length text;
    line = 1 + newlines before;
    column = column_after 1 before;
  };
}

abbrev pub diagnostic_behind : DiagnosticKind → List ℕ → Diagnostic
diagnostic_behind kind before = record {
  kind = kind;
  offset = byte_length before;
  line = 1 + newlines before;
  column = column_after 1 before;
}

-- A diagnostic tells the place of a character of the source that is no white space.
pub record Rejects (before source : List ℕ) (d : Diagnostic) : Type 0 where
  pub passed : List ℕ
  pub character : ℕ
  pub rest : List ℕ
  pub kind : DiagnosticKind
  pub splits : source ≡ passed ++ character ∷ rest
  pub not_blank : is_whitespace character ≡ false
  pub tells : d ≡ diagnostic_behind kind (before ++ passed)

module _ (tables : CharTables) where
  scan_at-ScansAt :
      (c : ℕ) (cs : List ℕ) (start : Lexer)
      → start.rest ≡ c ∷ cs
      → ScansAt tables start (scan_at tables c start)
  unfolding scan_at ScansAt
  scan_at-ScansAt c cs start e =
      let At = ScansAt tables start in
      let is : (k : ℕ) → (c == k) ≡ true → start.rest ≡ k ∷ cs =
        λ k h. let same : c ≡ k = ground arith in e ∙ ap (λ x. x ∷ cs) same in
      let number = found start (consume_number start) TokenKind.number in
      let zero_x = c == b'0' && next_is (λ d. d == b'x' || d == b'X') start.rest in
      let two_slashes = c == b'/' && next_is (λ d. d == b'/') start.rest in
      let operator = found start (consume_operator c start) TokenKind.operator in
      let mark = found start (advance start) TokenKind.punctuation in
      let unknown = rejected_at start start (DiagnosticKind.unexpected_character c) in
      let from_punctuation = if is_punctuation c then mark else unknown in
      let from_operator = if is_operator c then operator else from_punctuation in
      let from_slashes = if two_slashes then consume_line_comment start else from_operator in
      let from_quote = if c == b'"' then consume_string start else from_slashes in
      let from_ampersand = if c == b'&' then consume_parameter tables start else from_quote in
      let digits = if zero_x then consume_binary tables start else number in
      let from_digit = if is_ascii_digit c then digits else from_ampersand in
      if_elim At (is_identifier_start tables c) (consume_identifier tables start) from_digit
        (λ h. consume_identifier-ScansAt tables c cs start e h)
        (λ _.
          if_elim At (is_ascii_digit c) digits from_ampersand
            (λ h.
              if_elim At zero_x (consume_binary tables start) number
                (λ x.
                  let (d, ds, e', is_x) =
                    peek_second b'0' (λ d. d == b'x' || d == b'X') c cs start e x in
                  consume_binary-ScansAt tables d ds start e' is_x)
                (λ _. consume_number-ScansAt tables c cs start e h))
            (λ _.
              if_elim At (c == b'&') (consume_parameter tables start) from_quote
                (λ h. consume_parameter-ScansAt tables cs start (is b'&' h))
                (λ _.
                  if_elim At (c == b'"') (consume_string start) from_slashes
                    (λ h. consume_string-ScansAt tables cs start (is b'"' h))
                    (λ _.
                      if_elim At two_slashes (consume_line_comment start) from_operator
                        (λ h.
                          let (d, ds, e', is_slash) =
                            peek_second b'/' (λ d. d == b'/') c cs start e h in
                          let slash : d ≡ b'/' = ground arith in
                          consume_line_comment-ScansAt tables ds start
                            (e' ∙ ap (λ x. b'/' ∷ (x ∷ ds)) slash))
                        (λ _.
                          if_elim At (is_operator c) operator from_punctuation
                            (λ h. consume_operator-ScansAt tables c cs start e h)
                            (λ _.
                              if_elim At (is_punctuation c) mark unknown
                                (λ h.
                                  lexeme tables TokenKind.punctuation
                                    (Consumed-advance c cs start e) (punctuation h))
                                (λ _. (DiagnosticKind.unexpected_character c, refl))))))))

  -- A scan passes over white space first.
  unfoldable pub Scans : Lexer → Scanned → Type 0
  Scans l s =
      (start : Lexer) × Run is_whitespace l start
      × ScansAt tables start s
      × ((d : Diagnostic) → s.0 ≡ err d → (c : ℕ) × (cs : List ℕ) × (start.rest ≡ c ∷ cs))

  scan_from-Scans :
      (rest : List ℕ) (start : Lexer)
      → start.rest ≡ rest
      → ScansAt tables start (scan_from tables rest start)
        × ((d : Diagnostic)
            → (scan_from tables rest start).0 ≡ err d
            → (c : ℕ) × (cs : List ℕ) × (start.rest ≡ c ∷ cs))
  unfolding scan_from ScansAt
  scan_from-Scans [] start e = (e, λ d h. cc)
  scan_from-Scans (c ∷ cs) start e = (scan_at-ScansAt c cs start e, λ d h. (c, cs, e))

  pub scan_token-Scans : (l : Lexer) → Scans l (scan_token tables l)
  unfolding scan_token Scans skip_whitespace
  scan_token-Scans l =
      let start = skip_whitespace l in
      let (at, nonempty) = scan_from-Scans start.rest start refl in
      (start, advance_over-Run is_whitespace l.rest l refl, at, nonempty)

  -- The tokens of a text that stands behind the text `before`: each is a lexeme of the grammar with
  -- its place, and between them stands white space.
  pub data Tiles : List ℕ → List ℕ → List Token → Type 0 where
    blank :
        {before source : List ℕ} → All (λ c. is_whitespace c ≡ true) source → Tiles before source []
    tile :
        {before source : List ℕ} {ts : List Token} (gap text rest : List ℕ) (kind : TokenKind)
        → source ≡ gap ++ (text ++ rest)
        → All (λ c. is_whitespace c ≡ true) gap
        → Shape tables kind text
        → Tiles ((before ++ gap) ++ text) rest ts
        → Tiles before source (token_behind kind (before ++ gap) text ∷ ts)

  unfoldable pub Outcome : List ℕ → List ℕ → Result Diagnostic (List Token) → Type 0
  Outcome before source (ok ts) = Tiles before source ts
  Outcome before source (err d) = Rejects before source d
  Outcome before source stuck = ⊥
