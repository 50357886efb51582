-- ===== src/Lexer/Shape/Scans.antt =====
-- Each scan of src/lexer.rs in the terms of the lexical grammar.
use open_sdbl.Prelude.{
  ℕ, ◌-◌, ◌%◌, ◌≡◌, ◌⊎◌, refl, sym, ap, subst, ◌∙◌, Bool, true, false, not, ◌&&◌, ◌||◌, List, [],
  ◌∷◌, ◌++◌, arith, ◌==◌, if◌then◌else◌, length, All, Bool-cases, inl, inr, if_elim,
}
use open_sdbl.Lexer.Chars.{
  CharTables, byte_length, is_ascii_digit, is_ascii_hexdigit, is_identifier_start,
  is_identifier_continue,
}
use open_sdbl.Lexer.Token.{TokenKind, DiagnosticKind}
use open_sdbl.Lexer.Lookup.{keyword}
use open_sdbl.Lexer.Scan.{
  Lexer, step_over, advance, current_is, next_is, advance_while, found, rejected_at,
  consume_line_comment, consume_number, string_end, consume_string, pairs_with, consume_operator,
  is_operator, identifier_kind, consume_identifier, consume_parameter, consume_binary,
  lexeme_between,
}
use open_sdbl.Lexer.Consumed.{
  Consumed, Consumed-trans, Consumed-step_over, Consumed-advance, rest-advance, advance_over-Run,
  Run-first, lexeme-Consumed,
}
use open_sdbl.Lexer.Shape.{
  escape, Shape, word, parameter, whole_number, decimal, binary, string, operator, operator_pair,
  comment, ScansAt, lexeme,
}

module _ (tables : CharTables) where
  pub consume_identifier-ScansAt :
      (c : ℕ) (cs : List ℕ) (start : Lexer)
      → start.rest ≡ c ∷ cs
      → is_identifier_start tables c ≡ true
      → ScansAt tables start (consume_identifier tables start)
  unfolding consume_identifier
  consume_identifier-ScansAt c cs start e h =
      let after = advance start in
      let l = advance_while (is_identifier_continue tables) after in
      let r = advance_over-Run (is_identifier_continue tables) after.rest after refl in
      let consumed : Consumed (c ∷ r.run) start l =
        Consumed-trans (Consumed-advance c cs start e) r.consumed in
      lexeme tables (identifier_kind (keyword tables (lexeme_between start l))) consumed (
        subst (λ t. Shape tables (identifier_kind (keyword tables t)) (c ∷ r.run))
          (sym (lexeme-Consumed start l consumed)) (word h r.passes))

  pub first_cases :
      (test : ℕ → Bool) (xs : List ℕ)
      → (current_is test xs ≡ false) ⊎ ((c : ℕ) × (cs : List ℕ) × (xs ≡ c ∷ cs) × (test c ≡ true))
  first_cases test [] = inl refl
  first_cases test (c ∷ cs) = elim (Bool-cases (test c)) [
    | inl h ↦ inr (c, cs, refl, h)
    | inr h ↦ inl h
  ]

  pub consume_parameter-ScansAt :
      (cs : List ℕ) (start : Lexer)
      → start.rest ≡ b'&' ∷ cs
      → ScansAt tables start (consume_parameter tables start)
  unfolding consume_parameter ScansAt
  consume_parameter-ScansAt cs start e =
      let at_name = advance start in
      let ampersand = Consumed-advance b'&' cs start e in
      let l = advance_while (is_identifier_continue tables) (advance at_name) in
      elim (first_cases (is_identifier_start tables) at_name.rest) [
        | inl none_starts ↦ rw none_starts (DiagnosticKind.expected_parameter_name, refl)
        | inr (c, ds, e', starts) ↦
            let after = advance at_name in
            let r = advance_over-Run (is_identifier_continue tables) after.rest after refl in
            rw (ap (current_is (is_identifier_start tables)) e' ∙ starts) (
              lexeme tables TokenKind.parameter
                (Consumed-trans ampersand
                  (Consumed-trans (Consumed-advance c ds at_name e') r.consumed))
                (parameter starts r.passes))
      ]

  next_is-true :
      (p q : ℕ → Bool) (xs : List ℕ)
      → (current_is p xs && next_is q xs) ≡ true
      → (a : ℕ) × (b : ℕ) × (ys : List ℕ) × (xs ≡ a ∷ (b ∷ ys)) × (p a ≡ true) × (q b ≡ true)
  next_is-true p q [] h = cc
  next_is-true p q (a ∷ []) h = ground arith
  next_is-true p q (a ∷ (b ∷ ys)) h = (a, b, ys, refl, ground arith, ground arith)

  pub consume_number-ScansAt :
      (c : ℕ) (cs : List ℕ) (start : Lexer)
      → start.rest ≡ c ∷ cs
      → is_ascii_digit c ≡ true
      → ScansAt tables start (found start (consume_number start) TokenKind.number)
  unfolding consume_number
  consume_number-ScansAt c cs start e h =
      let whole = advance_while is_ascii_digit start in
      let r = Run-first is_ascii_digit c cs start e h in
      let consumed : Consumed (c ∷ r.run) start whole =
        Consumed-trans (Consumed-step_over c cs start e) r.consumed in
      if_elim (λ l. ScansAt tables start (found start l TokenKind.number))
        (current_is (λ c. c == b'.') whole.rest && next_is is_ascii_digit whole.rest)
        (advance_while is_ascii_digit (advance whole)) whole
        (λ point.
          let (a, b, ys, e', is_point, digit) =
            next_is-true (λ c. c == b'.') is_ascii_digit whole.rest point in
          let after = rest-advance a (b ∷ ys) whole e' in
          let r' = Run-first is_ascii_digit b ys (advance whole) after digit in
          let fraction : Consumed (b ∷ r'.run) (advance whole)
              (advance_while is_ascii_digit (advance whole)) =
            Consumed-trans (Consumed-step_over b ys (advance whole) after) r'.consumed in
          let dot : Consumed (b'.' ∷ []) whole (advance whole) =
            subst (λ x. Consumed (x ∷ []) whole (advance whole)) (ground arith)
              (Consumed-advance a (b ∷ ys) whole e') in
          lexeme tables TokenKind.number (Consumed-trans consumed (Consumed-trans dot fraction))
            (decimal r.run b r'.run (h, r.passes) (digit, r'.passes)))
        (λ _. lexeme tables TokenKind.number consumed (whole_number (h, r.passes)))

  pub consume_line_comment-ScansAt :
      (cs : List ℕ) (start : Lexer)
      → start.rest ≡ b'/' ∷ (b'/' ∷ cs)
      → ScansAt tables start (consume_line_comment start)
  unfolding consume_line_comment
  consume_line_comment-ScansAt cs start e =
      let one = Consumed-advance b'/' (b'/' ∷ cs) start e in
      let e' = rest-advance b'/' (b'/' ∷ cs) start e in
      let two = Consumed-advance b'/' cs (advance start) e' in
      let after = advance (advance start) in
      let r = advance_over-Run (λ c. not (c == b'\n')) after.rest after refl in
      lexeme tables TokenKind.comment (Consumed-trans one (Consumed-trans two r.consumed))
        (comment r.passes)

  byte_length-hexdigits :
      (xs : List ℕ) → All (λ h. is_ascii_hexdigit h ≡ true) xs → byte_length xs ≡ length xs
  unfolding is_ascii_hexdigit
  byte_length-hexdigits [] h = refl
  byte_length-hexdigits (x ∷ xs) (h, hs) = let rest = byte_length-hexdigits xs hs in ground arith

  binary_digits :
      {x : ℕ} (run : List ℕ) (more : Bool) (count : ℕ)
      → (x == b'x' || x == b'X') ≡ true
      → All (λ h. is_ascii_hexdigit h ≡ true) run
      → count ≡ length run
      → (count == 0 || not (count % 2 == 0) || more) ≡ false
      → Shape tables TokenKind.binary (b'0' ∷ (x ∷ run))
  binary_digits [] more count h hs e k = absurd (ground arith)
  binary_digits (d ∷ ds) more count h hs e k = binary h hs (ground arith)

  pub consume_binary-ScansAt :
      (x : ℕ) (cs : List ℕ) (start : Lexer)
      → start.rest ≡ b'0' ∷ (x ∷ cs)
      → (x == b'x' || x == b'X') ≡ true
      → ScansAt tables start (consume_binary tables start)
  unfolding consume_binary ScansAt
  consume_binary-ScansAt x cs start e h =
      let one = Consumed-advance b'0' (x ∷ cs) start e in
      let e' = rest-advance b'0' (x ∷ cs) start e in
      let two = Consumed-advance x cs (advance start) e' in
      let digits_start = advance (advance start) in
      let l = advance_while is_ascii_hexdigit digits_start in
      let r = advance_over-Run is_ascii_hexdigit digits_start.rest digits_start refl in
      let count : l.offset - digits_start.offset ≡ length r.run =
        omega (arith, r.consumed.offset_is, byte_length-hexdigits r.run r.passes) in
      if_elim (ScansAt tables start)
        (l.offset - digits_start.offset == 0
          || not ((l.offset - digits_start.offset) % 2 == 0)
          || current_is (is_identifier_continue tables) l.rest)
        (rejected_at start l DiagnosticKind.invalid_binary_literal) (found start l TokenKind.binary)
        (λ _. (DiagnosticKind.invalid_binary_literal, refl))
        (λ passed.
          lexeme tables TokenKind.binary (Consumed-trans one (Consumed-trans two r.consumed)) (
            binary_digits r.run (current_is (is_identifier_continue tables) l.rest)
              (l.offset - digits_start.offset) h r.passes count passed))

  pub consume_operator-ScansAt :
      (c : ℕ) (cs : List ℕ) (start : Lexer)
      → start.rest ≡ c ∷ cs
      → is_operator c ≡ true
      → ScansAt tables start (found start (consume_operator c start) TokenKind.operator)
  unfolding consume_operator
  consume_operator-ScansAt c cs start e h =
      let after = advance start in
      let one = Consumed-advance c cs start e in
      elim (first_cases (pairs_with c) after.rest) [
        | inl alone ↦ rw alone (lexeme tables TokenKind.operator one (operator h))
        | inr (d, ds, e', pairs) ↦ rw (ap (current_is (pairs_with c)) e' ∙ pairs) (
            lexeme tables TokenKind.operator (Consumed-trans one (Consumed-advance d ds after e'))
              (operator_pair h pairs))
      ]

  -- The scan of a string stops behind the quote that closes an escaped text.
  Closes : Lexer → Lexer → Type 0
  Closes l l' = (content : List ℕ) × Consumed (escape content ++ b'"' ∷ []) l l'

  step_over_at :
      (k c : ℕ) (cs : List ℕ) (l : Lexer)
      → l.rest ≡ c ∷ cs
      → (c == k) ≡ true
      → Consumed (k ∷ []) l (step_over c cs l)
  step_over_at k c cs l e h =
      let same : c ≡ k = ground arith in
      subst (λ x. Consumed (x ∷ []) l (step_over c cs l)) same (Consumed-step_over c cs l e)

  escape_other : (c : ℕ) (cs : List ℕ) → (c == b'"') ≡ false → escape (c ∷ cs) ≡ c ∷ escape cs
  escape_other c cs h = rw h

  string_end-Closes :
      (rest : List ℕ) (l : Lexer)
      → l.rest ≡ rest
      → (string_end rest l).0 ≡ true
      → Closes l (string_end rest l).1
  unfolding string_end Closes
  string_end-Closes [] l e h = cc
  string_end-Closes (c ∷ []) l e h = ([], step_over_at b'"' c [] l e h)
  string_end-Closes (c ∷ (d ∷ ds)) l e h =
      let after = step_over c (d ∷ ds) l in
      let Closing : Bool × Lexer → Type 0 = λ p. p.0 ≡ true → Closes l p.1 in
      if_elim Closing (c == b'"')
        (if d == b'"' then string_end ds (step_over d ds after) else (true, after))
        (string_end (d ∷ ds) after)
        (λ quote.
          if_elim Closing (d == b'"') (string_end ds (step_over d ds after)) (true, after)
            (λ doubled k.
              let (content, consumed) = string_end-Closes ds (step_over d ds after) refl k in
              (
                b'"' ∷ content,
                Consumed-trans (step_over_at b'"' c (d ∷ ds) l e quote)
                    (Consumed-trans (step_over_at b'"' d ds after refl doubled) consumed),
              ))
            (λ _ _. ([], step_over_at b'"' c (d ∷ ds) l e quote)))
        (λ other k.
          let (content, consumed) = string_end-Closes (d ∷ ds) after refl k in
          (
            c ∷ content,
            rw (escape_other c content other)
                (Consumed-trans (Consumed-step_over c (d ∷ ds) l e) consumed),
          ))
        h

  pub consume_string-ScansAt :
      (cs : List ℕ) (start : Lexer)
      → start.rest ≡ b'"' ∷ cs
      → ScansAt tables start (consume_string start)
  unfolding consume_string ScansAt Closes
  consume_string-ScansAt cs start e =
      let opened = advance start in
      let (closed, l) = string_end opened.rest opened in
      if_elim (ScansAt tables start) closed (found start l TokenKind.string)
        (rejected_at start l DiagnosticKind.unterminated_string)
        (λ h.
          let (content, consumed) = string_end-Closes opened.rest opened refl h in
          lexeme tables TokenKind.string
            (Consumed-trans (Consumed-advance b'"' cs start e) consumed) (string content))
        (λ _. (DiagnosticKind.unterminated_string, refl))
