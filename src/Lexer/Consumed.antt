-- ===== src/Lexer/Consumed.antt =====
-- What the lexer has passed over, and how its position follows from that text alone.
use open_sdbl.Prelude.{
  ℕ, subst, ◌+◌, ◌-◌, ◌≡◌, refl, sym, ap, ◌∙◌, Bool, true, false, List, [], ◌∷◌, ◌++◌, append_assoc,
  arith, ◌==◌, if◌then◌else◌, length, length-append, take-append, All, Bool-cases, inl, inr,
}
use open_sdbl.Lexer.Chars.{byte_length}
use open_sdbl.Lexer.Scan.{
  Lexer, step_over, advance_from, advance, advance_over, current_is, lexeme_between,
}

-- How many lines a text ends.
abbrev pub newlines : List ℕ → ℕ
newlines [] = 0
newlines (c ∷ cs) = (if c == b'\n' then 1 else 0) + newlines cs

-- The column behind a text that begins at column `column`.
abbrev pub column_after : ℕ → List ℕ → ℕ
column_after column [] = column
column_after column (c ∷ cs) = column_after (if c == b'\n' then 1 else column + 1) cs

pub record Consumed (text : List ℕ) (l l' : Lexer) : Type 0 where
  pub splits : l.rest ≡ text ++ l'.rest
  pub offset_is : l'.offset ≡ l.offset + byte_length text
  pub line_is : l'.line ≡ l.line + newlines text
  pub column_is : l'.column ≡ column_after l.column text
  pub finished_is : l'.finished ≡ l.finished

byte_length-append : (xs ys : List ℕ) → byte_length (xs ++ ys) ≡ byte_length xs + byte_length ys
byte_length-append [] ys = omega arith
byte_length-append (x ∷ xs) ys = omega (arith, byte_length-append xs ys)

newlines-append : (xs ys : List ℕ) → newlines (xs ++ ys) ≡ newlines xs + newlines ys
newlines-append [] ys = omega arith
newlines-append (x ∷ xs) ys = omega (arith, newlines-append xs ys)

column_after-append :
    (column : ℕ) (xs ys : List ℕ)
    → column_after column (xs ++ ys) ≡ column_after (column_after column xs) ys
column_after-append column [] ys = refl
column_after-append column (x ∷ xs) ys =
    column_after-append (if x == b'\n' then 1 else column + 1) xs ys

pub Consumed-refl : (l : Lexer) → Consumed [] l l
Consumed-refl l = record {
  splits = refl;
  offset_is = omega arith;
  line_is = omega arith;
  column_is = refl;
  finished_is = refl;
}

pub Consumed-trans :
    {xs ys : List ℕ} {l l' l'' : Lexer}
    → Consumed xs l l'
    → Consumed ys l' l''
    → Consumed (xs ++ ys) l l''
Consumed-trans {xs} {ys} {l} {l'} {l''} a b = record {
  splits = a.splits ∙ ap (◌++◌ xs) b.splits ∙ sym (append_assoc xs ys l''.rest);
  offset_is = omega (arith, byte_length-append xs ys, a.offset_is, b.offset_is);
  line_is = omega (arith, newlines-append xs ys, a.line_is, b.line_is);
  column_is =
      b.column_is
      ∙ ap (λ k. column_after k ys) a.column_is
      ∙ sym (column_after-append l.column xs ys);
  finished_is = b.finished_is ∙ a.finished_is;
}

pub Consumed-step_over :
    (c : ℕ) (cs : List ℕ) (l : Lexer) → l.rest ≡ c ∷ cs → Consumed (c ∷ []) l (step_over c cs l)
Consumed-step_over c cs l e = record {
  splits = e;
  offset_is = omega arith;
  line_is = ground arith;
  column_is = refl;
  finished_is = refl;
}

pub Consumed-advance :
    (c : ℕ) (cs : List ℕ) (l : Lexer) → l.rest ≡ c ∷ cs → Consumed (c ∷ []) l (advance l)
Consumed-advance c cs l e =
    subst (λ r. Consumed (c ∷ []) l (advance_from r l)) (sym e) (Consumed-step_over c cs l e)

pub rest-advance : (c : ℕ) (cs : List ℕ) (l : Lexer) → l.rest ≡ c ∷ cs → (advance l).rest ≡ cs
rest-advance c cs l e = ap (λ r. (advance_from r l).rest) e

-- A `while` loop passes over the longest run of characters that pass its test.
pub record Run (test : ℕ → Bool) (l l' : Lexer) : Type 0 where
  pub run : List ℕ
  pub consumed : Consumed run l l'
  pub passes : All (λ c. test c ≡ true) run
  pub stops : current_is test l'.rest ≡ false

Run-step_over :
    (test : ℕ → Bool) (c : ℕ) (cs : List ℕ) (l : Lexer) {l' : Lexer}
    → l.rest ≡ c ∷ cs
    → test c ≡ true
    → Run test (step_over c cs l) l'
    → Run test l l'
Run-step_over test c cs l e passed r = record {
  run = c ∷ r.run;
  consumed = Consumed-trans (Consumed-step_over c cs l e) r.consumed;
  passes = (passed, r.passes);
  stops = r.stops;
}

pub advance_over-Run :
    (test : ℕ → Bool) (rest : List ℕ) (l : Lexer)
    → l.rest ≡ rest
    → Run test l (advance_over test rest l)
unfolding advance_over
advance_over-Run test [] l e = record {
  run = [];
  consumed = Consumed-refl l;
  passes = tt;
  stops = ap (current_is test) e;
}
advance_over-Run test (c ∷ cs) l e = elim (Bool-cases (test c)) [
  | inl passed ↦
      rw passed
        (Run-step_over test c cs l e passed (advance_over-Run test cs (step_over c cs l) refl))
  | inr stopped ↦ rw stopped record {
    run = [];
    consumed = Consumed-refl l;
    passes = tt;
    stops = ap (current_is test) e ∙ stopped;
  }
]

pub Run-first :
    (test : ℕ → Bool) (c : ℕ) (cs : List ℕ) (l : Lexer)
    → l.rest ≡ c ∷ cs
    → test c ≡ true
    → Run test (step_over c cs l) (advance_over test l.rest l)
unfolding advance_over
Run-first test c cs l e passed =
    subst (λ r. Run test (step_over c cs l) (advance_over test r l)) (sym e)
      (rw passed (advance_over-Run test cs (step_over c cs l) refl))

pub lexeme-Consumed :
    {text : List ℕ} (l l' : Lexer) → Consumed text l l' → lexeme_between l l' ≡ text
lexeme-Consumed {text} l l' c =
    let size : length l.rest - length l'.rest ≡ length text =
      omega (arith, ap length c.splits, length-append text l'.rest) in
    rw (size, c.splits) (take-append text l'.rest)
