-- ===== src/Lexer/Tokens.antt =====
-- `tokenize` of src/lexer.rs on a whole source.
use open_sdbl.Prelude.{
  ℕ, suc, zero, ◌+◌, ◌<◌, ◌≢◌, ◌≡◌, refl, sym, ap, subst, ◌∙◌, true, List, [], ◌∷◌, ◌++◌, none,
  some, append_assoc, append-nil, arith, if◌then◌else◌, length, length-append, All,
}
use open_sdbl.Prelude.Result.{Result, ok, err, stuck, ◌>>=◌}
use open_sdbl.Lexer.Chars.{CharTables, byte_length, is_whitespace}
use open_sdbl.Lexer.Token.{TokenKind, Token, Diagnostic, DiagnosticKind}
use open_sdbl.Lexer.Scan.{
  Lexer, current_is, new_lexer, token, diagnostic, Scanned, scan_token, next, finish_scan,
  collected, collect, tokenize,
}
use open_sdbl.Lexer.Consumed.{newlines, Consumed, Consumed-refl, Consumed-trans, lexeme-Consumed}
use open_sdbl.Lexer.Shape.{Shape, ScansAt, Shape-nonempty}
use open_sdbl.Lexer.Tiling.{
  Scans, scan_token-Scans, token_behind, diagnostic_behind, Tiles, blank, tile, Rejects, Outcome,
}

module _ (tables : CharTables) (source : List ℕ) where
  -- The lexer stands behind `before`.
  abbrev Reached : List ℕ → Lexer → Type 0
  Reached before l = Consumed before (new_lexer source) l

  abbrev make : TokenKind → List ℕ → ℕ → ℕ → ℕ → ℕ → Token
  make kind text start end line column = record {
    kind = kind;
    lexeme = text;
    span = record { start = start; end = end; line = line; column = column };
  }

  token-Consumed :
      (before text : List ℕ) (kind : TokenKind) (start l' : Lexer)
      → Reached before start
      → Consumed text start l'
      → token start l' kind ≡ token_behind kind before text
  token-Consumed before text kind start l' reached consumed =
      ap (λ t. make kind t start.offset l'.offset start.line start.column)
        (lexeme-Consumed start l' consumed)
      ∙ ap (λ n. make kind text n l'.offset start.line start.column)
          (omega (arith, reached.offset_is))
      ∙ ap (λ n. make kind text (byte_length before) n start.line start.column)
          (omega (arith, reached.offset_is, consumed.offset_is))
      ∙ ap
          (λ n.
            make kind text (byte_length before) (byte_length before + byte_length text) n
              start.column)
          (omega (arith, reached.line_is))
      ∙ ap
          (λ n.
            make kind text (byte_length before) (byte_length before + byte_length text)
              (1 + newlines before) n)
          reached.column_is

  diagnostic-Consumed :
      (before : List ℕ) (kind : DiagnosticKind) (start : Lexer)
      → Reached before start
      → diagnostic start kind ≡ diagnostic_behind kind before
  diagnostic-Consumed before kind start reached =
      let make_at : ℕ → ℕ → ℕ → Diagnostic =
        λ o l c. record { kind = kind; offset = o; line = l; column = c } in
      ap (λ n. make_at n start.line start.column) (omega (arith, reached.offset_is))
      ∙ ap (λ n. make_at (byte_length before) n start.column) (omega (arith, reached.line_is))
      ∙ ap (λ n. make_at (byte_length before) (1 + newlines before) n) reached.column_is

  prepend :
      (before source gap text rest : List ℕ) (kind : TokenKind) (t : Token)
      → t ≡ token_behind kind (before ++ gap) text
      → source ≡ gap ++ (text ++ rest)
      → All (λ c. is_whitespace c ≡ true) gap
      → Shape tables kind text
      → (r : Result Diagnostic (List Token)) → Outcome tables ((before ++ gap) ++ text) rest r
      → Outcome tables before source (r >>= λ ts. ok (t ∷ ts))
  unfolding Outcome
  prepend before source gap text rest kind t is splits spaces shape (ok ts) tiles =
      subst (λ u. Tiles tables before source (u ∷ ts)) (sym is)
        (tile gap text rest kind splits spaces shape tiles)
  prepend before source gap text rest kind t is splits spaces shape (err d) rejects =
      let inner = text ++ rejects.passed in
      let tail = rejects.character ∷ rejects.rest in
      let assoc_splits : source ≡ (gap ++ inner) ++ tail =
        splits
        ∙ ap (λ r. gap ++ (text ++ r)) rejects.splits
        ∙ ap (λ r. gap ++ r) (sym (append_assoc text rejects.passed tail))
        ∙ sym (append_assoc gap inner tail) in
      let assoc_passed : ((before ++ gap) ++ text) ++ rejects.passed ≡ before ++ (gap ++ inner) =
        append_assoc (before ++ gap) text rejects.passed ∙ append_assoc before gap inner in
      record {
        passed = gap ++ (text ++ rejects.passed);
        character = rejects.character;
        rest = rejects.rest;
        kind = rejects.kind;
        splits = assoc_splits;
        not_blank = rejects.not_blank;
        tells = rejects.tells ∙ ap (diagnostic_behind rejects.kind) assoc_passed;
      }
  prepend before source gap text rest kind t is splits spaces shape stuck none_left =
      absurd none_left

  next-finish_scan :
      (before : List ℕ) (l : Lexer) (s : Scanned)
      → Reached before l
      → scan_token tables l ≡ s
      → next tables l ≡ finish_scan tables s
  unfolding next
  next-finish_scan before l s reached e =
      ap (λ b. if b then (none, l) else finish_scan tables (scan_token tables l))
        reached.finished_is
      ∙ ap (finish_scan tables) e

  -- What is left to read grows shorter with each token.
  Answers : ℕ → List ℕ → Lexer → Type 0
  Answers fuel before l =
      (before' : List ℕ) (l' : Lexer)
      → Reached before' l'
      → length l'.rest < length l.rest
      → Outcome tables before' l'.rest (collect tables fuel l')

  collected-Outcome :
      (fuel : ℕ) (before : List ℕ) (l : Lexer)
      → Reached before l
      → Answers fuel before l
      → (s : Scanned) → scan_token tables l ≡ s
      → Scans tables l s
      → Outcome tables before l.rest
          (collected tables (finish_scan tables s).0 (collect tables fuel (finish_scan tables s).1))
  unfolding Outcome Scans ScansAt Answers
  collected-Outcome fuel before l reached ih (ok (some t), l') e (start, gap, (kind, is, lex), _) =
      let at_start : Reached (before ++ gap.run) start = Consumed-trans reached gap.consumed in
      let at_end : Reached ((before ++ gap.run) ++ lex.text) l' =
        Consumed-trans at_start lex.consumed in
      let splits : l.rest ≡ gap.run ++ (lex.text ++ l'.rest) =
        gap.consumed.splits ∙ ap (λ r. gap.run ++ r) lex.consumed.splits in
      let shorter : length l'.rest < length l.rest = omega (
        arith,
        ap length splits,
        length-append gap.run (lex.text ++ l'.rest),
        length-append lex.text l'.rest,
        Shape-nonempty tables lex.shape,
      ) in
      prepend before l.rest gap.run lex.text l'.rest kind t
        (is ∙ token-Consumed (before ++ gap.run) lex.text kind start l' at_start lex.consumed)
        splits gap.passes lex.shape (collect tables fuel l')
        (ih ((before ++ gap.run) ++ lex.text) l' at_end shorter)
  collected-Outcome fuel before l reached ih (ok none, l') e (start, gap, at_end, _) =
      let all_blank : gap.run ≡ l.rest =
        sym (gap.consumed.splits ∙ ap (λ r. gap.run ++ r) at_end ∙ append-nil gap.run) in
      blank (subst (All (λ c. is_whitespace c ≡ true)) all_blank gap.passes)
  collected-Outcome fuel before l reached ih (err d, l') e (start, gap, (kind, is), nonempty) =
      let (c, cs, e') = nonempty d refl in
      let at_start : Reached (before ++ gap.run) start = Consumed-trans reached gap.consumed in
      record {
        passed = gap.run;
        character = c;
        rest = cs;
        kind = kind;
        splits = gap.consumed.splits ∙ ap (λ r. gap.run ++ r) e';
        not_blank = sym (ap (current_is is_whitespace) e') ∙ gap.stops;
        tells = is ∙ diagnostic-Consumed (before ++ gap.run) kind start at_start;
      }
  collected-Outcome fuel before l reached ih (stuck, l') e (start, gap, none_left, _) =
      absurd none_left

  collect-Outcome :
      (fuel : ℕ) (before : List ℕ) (l : Lexer)
      → Reached before l
      → length l.rest < fuel
      → Outcome tables before l.rest (collect tables fuel l)
  unfolding collect Answers
  collect-Outcome zero before l reached enough = absurd (omega arith)
  collect-Outcome (suc fuel) before l reached enough =
      let s = scan_token tables l in
      subst (λ n. Outcome tables before l.rest (collected tables n.0 (collect tables fuel n.1)))
        (sym (next-finish_scan before l s reached refl))
        (collected-Outcome fuel before l reached
          (λ before' l' reached' shorter. collect-Outcome fuel before' l' reached' (omega arith)) s
          refl (scan_token-Scans tables l))

  pub tokenize-Outcome : Outcome tables [] source (tokenize tables source)
  unfolding tokenize
  tokenize-Outcome =
      collect-Outcome (length source + 1) [] (new_lexer source) (Consumed-refl (new_lexer source))
        (omega arith)

  -- The lexer ends on every source: with its tokens or with a diagnostic.
  pub tokenize-ne-stuck : tokenize tables source ≢ stuck
  unfolding Outcome
  tokenize-ne-stuck e = subst (Outcome tables [] source) e tokenize-Outcome

  -- If the lexer gives tokens, they tile the source: the source is their lexemes in their order with
  -- only white space before, between and behind them, each lexeme has the grammar of its kind, and
  -- each span tells the bytes, the line and the column at which the lexeme stands.
  pub tokenize-Tiles :
      (ts : List Token) → tokenize tables source ≡ ok ts → Tiles tables [] source ts
  unfolding Outcome
  tokenize-Tiles ts e = subst (Outcome tables [] source) e tokenize-Outcome

  -- If the lexer gives a diagnostic, it tells the offset, the line and the column of a character of
  -- the source that is no white space.
  pub tokenize-Rejects : (d : Diagnostic) → tokenize tables source ≡ err d → Rejects [] source d
  unfolding Outcome
  tokenize-Rejects d e = subst (Outcome tables [] source) e tokenize-Outcome
