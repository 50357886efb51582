-- ===== src/Metadata/Value/Print.antt =====
-- A printer for the values that src/metadata/value.rs reads, and what its parser does with the
-- strings and the atoms that it prints.
use open_sdbl.Prelude.{
  ℕ, ◌+◌, ◌≤◌, ◌≡◌, refl, sym, ap, ◌∙◌, Bool, true, false, ◌||◌, List, [], ◌∷◌, ◌++◌, append_assoc,
  append-nil, subst, arith, ◌==◌, if◌then◌else◌, if_elim, length, length-append, All,
}
use open_sdbl.Prelude.Result.{ok}
use open_sdbl.Lexer.Chars.{len_utf8, is_whitespace}
use open_sdbl.Lexer.Shape.{escape}
use open_sdbl.Metadata.Value.Data.{Value, Values, nil, cons}
use open_sdbl.Metadata.Value.Parse.{
  Parser, step_from, Parsed, is_skipped, skip_from, skip_whitespace, string_from, parse_string,
  trim_start, trim_end, ends_atom, atom_from, atom_value, parse_atom,
}

-- The text of a value, in front of what follows it
abbrev mutual
  pub print : Value → List ℕ → List ℕ
  print (Value.list vs) rest = b'{' ∷ print_items vs (b'}' ∷ rest)
  print (Value.string s) rest = b'"' ∷ (escape s ++ b'"' ∷ rest)
  print (Value.atom a) rest = a ++ rest
  print Value.null rest = rest

  pub print_items : Values → List ℕ → List ℕ
  print_items nil rest = rest
  print_items (cons v nil) rest = print v rest
  print_items (cons v (cons w ws)) rest = print v (b',' ∷ print_items (cons w ws) rest)

-- A text that stands as an atom: it does not begin as another value or with white space, trimming
-- leaves its end, and no character ends it.
pub record IsAtom (c : ℕ) (cs : List ℕ) : Type 0 where
  pub begins : is_whitespace c ≡ false
  pub no_quote : (c == b'"') ≡ false
  pub trimmed : trim_end (c ∷ cs) ≡ c ∷ cs
  pub inside : All (λ x. ends_atom x ≡ false) (c ∷ cs)

abbrev pub is_single_null : Values → Bool
is_single_null (cons Value.null nil) = true
is_single_null vs = false

-- The values that have a text: the format has none for a list of a single omitted value.
abbrev mutual
  pub Printable : Value → Type 0
  Printable (Value.list vs) = (is_single_null vs ≡ false) × AllPrintable vs
  Printable (Value.string s) = Unit
  Printable (Value.atom []) = ⊥
  Printable (Value.atom (c ∷ cs)) = IsAtom c cs
  Printable Value.null = Unit

  pub AllPrintable : Values → Type 0
  AllPrintable nil = Unit
  AllPrintable (cons v vs) = Printable v × AllPrintable vs

-- What may follow a value: the end, a comma or a closing brace.
abbrev pub Follows : List ℕ → Type 0
Follows [] = Unit
Follows (c ∷ cs) = (c == b',' || c == b'}') ≡ true

-- The parser in front of a text, of which it keeps whole values
abbrev pub before : List ℕ → ℕ → Parser
before text offset = record { rest = text; offset = offset; identity_only = false }

-- The parse gave a value and stands in front of `rest`.
abbrev pub Reads : Parsed Value → Value → List ℕ → Type 0
Reads r v rest = (offset : ℕ) × (r ≡ ok (v, before rest offset))

-- There is no white space to skip.
abbrev pub Stays : List ℕ → Type 0
Stays text = (offset : ℕ) → skip_whitespace (before text offset) ≡ before text offset

pub is_skipped-Stays : (c : ℕ) (cs : List ℕ) → is_skipped c ≡ false → Stays (c ∷ cs)
unfolding skip_from
is_skipped-Stays c cs h offset =
    ap
      (λ b.
        if b
        then skip_from cs (step_from (c ∷ cs) (before (c ∷ cs) offset))
        else before (c ∷ cs) offset)
      h

pub is_skipped-begins : (c : ℕ) → is_whitespace c ≡ false → is_skipped c ≡ false
unfolding is_whitespace
is_skipped-begins c h = ground arith

-- Strings.
string_from-other :
    (segment c : ℕ) (text tail : List ℕ) (p : Parser)
    → (c == b'"') ≡ false
    → 1 ≤ length tail
    → string_from segment text (c ∷ tail) p
      ≡ string_from segment (text ++ c ∷ []) tail (step_from (c ∷ tail) p)
unfolding string_from
string_from-other segment c text [] p h k = absurd (omega arith)
string_from-other segment c text (d ∷ ds) p h k = rw h

string_from-quote :
    (segment : ℕ) (text rest : List ℕ) (p : Parser)
    → Follows rest
    → string_from segment text (b'"' ∷ rest) p ≡ ok (Value.string text, step_from (b'"' ∷ rest) p)
unfolding string_from
string_from-quote segment text [] p h = refl
string_from-quote segment text (d ∷ ds) p h =
    let other : (d == b'"') ≡ false = ground arith in rw other

string_from-escape :
    (segment : ℕ) (text content rest from : List ℕ) (offset : ℕ)
    → Follows rest
    → Reads
        (string_from segment text (escape content ++ b'"' ∷ rest) (before from offset))
        (Value.string (text ++ content))
        rest
unfolding string_from
string_from-escape segment text [] rest from offset h = (
  offset + 1,
  string_from-quote segment text rest (before from offset) h
      ∙ ap (λ t. ok (Value.string t, before rest (offset + 1))) (sym (append-nil text)),
)
string_from-escape segment text (c ∷ cs) rest from offset h =
    let tail = escape cs ++ b'"' ∷ rest in
    let p = before from offset in
    if_elim
      (λ l.
        Reads (string_from segment text (l ++ b'"' ∷ rest) p) (Value.string (text ++ c ∷ cs)) rest)
      (c == b'"') (b'"' ∷ (b'"' ∷ escape cs)) (c ∷ escape cs)
      (λ e.
        let first : c ≡ b'"' = ground arith in
        let again =
          string_from-escape (offset + 1 + 1) (text ++ b'"' ∷ []) cs rest tail (offset + 1 + 1) h in
        subst (λ t. Reads (string_from segment text (b'"' ∷ (b'"' ∷ tail)) p) (Value.string t) rest)
          (append_assoc text (b'"' ∷ []) cs ∙ ap (λ d. text ++ d ∷ cs) (sym first)) again)
      (λ e.
        let again =
          string_from-escape segment (text ++ c ∷ []) cs rest tail (offset + len_utf8 c) h in
        let long : 1 ≤ length tail = omega (arith, length-append (escape cs) (b'"' ∷ rest)) in
        subst (λ r. Reads r (Value.string (text ++ c ∷ cs)) rest)
          (sym (string_from-other segment c text tail p e long))
          (subst
            (λ t.
              Reads (string_from segment (text ++ c ∷ []) tail (before tail (offset + len_utf8 c)))
                (Value.string t) rest)
            (append_assoc text (c ∷ []) cs) again))

pub parse_string-escape :
    (content rest : List ℕ) (offset : ℕ)
    → Follows rest
    → Reads
        (parse_string (before (print (Value.string content) rest) offset))
        (Value.string content)
        rest
parse_string-escape content rest offset h =
    string_from-escape (offset + 1) [] content rest (escape content ++ b'"' ∷ rest) (offset + 1) h

-- Atoms.
atom_from-stops :
    (rest : List ℕ) (offset : ℕ)
    → Follows rest
    → atom_from rest (before rest offset) ≡ ([], before rest offset)
unfolding atom_from
atom_from-stops [] offset h = refl
atom_from-stops (c ∷ cs) offset h = let ends : ends_atom c ≡ true = ground arith in rw ends

atom_from-append :
    (text rest : List ℕ) (offset : ℕ)
    → All (λ x. ends_atom x ≡ false) text
    → Follows rest
    → (end : ℕ) × (atom_from (text ++ rest) (before (text ++ rest) offset)
        ≡ (text, before rest end))
unfolding atom_from
atom_from-append [] rest offset h k = (offset, atom_from-stops rest offset k)
atom_from-append (c ∷ cs) rest offset (h, hs) k =
    let (end, e) = atom_from-append cs rest (offset + len_utf8 c) hs k in
    (end, rw h (ap (λ (r : List ℕ × Parser). (c ∷ r.0, r.1)) e))

pub parse_atom-append :
    (c : ℕ) (cs rest : List ℕ) (offset : ℕ)
    → IsAtom c cs
    → Follows rest
    → Reads
        (parse_atom (before (print (Value.atom (c ∷ cs)) rest) offset))
        (Value.atom (c ∷ cs))
        rest
unfolding parse_atom trim_start
parse_atom-append c cs rest offset h k =
    let (end, e) = atom_from-append (c ∷ cs) rest offset h.inside k in
    let start : trim_start (c ∷ cs) ≡ c ∷ cs =
      ap (λ b. if b then trim_start cs else c ∷ cs) h.begins in
    (
      end,
      ap (λ (r : List ℕ × Parser). atom_value offset (trim_end (trim_start r.0)) r.1) e
          ∙ ap (λ t. atom_value offset (trim_end t) (before rest end)) start
          ∙ ap (λ t. atom_value offset t (before rest end)) h.trimmed,
    )
