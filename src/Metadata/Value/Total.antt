-- ===== src/Metadata/Value/Total.antt =====
-- How far the parts of the parser of src/metadata/value.rs read, and how deep their values nest.
use open_sdbl.Prelude.{
  ℕ, suc, ◌+◌, ◌≤◌, ◌<◌, max, ◌≡◌, ◌≢◌, refl, ap, Bool, true, false, List, [], ◌∷◌, ◌++◌, leb, ◌==◌,
  if◌then◌else◌, if_elim, Bool-cases, inl, inr, length, arith,
}
use open_sdbl.Prelude.Result.{ok, err, Ensures, holds, rejected, Ensures-weaken}
use open_sdbl.Metadata.Error.{literal, serialization_error}
use open_sdbl.Metadata.Value.Data.{Value, Values, nil, cons, snoc}
use open_sdbl.Metadata.Value.Parse.{
  Parser, step_from, step, Parsed, is_skipped, skip_from, skip_whitespace, serialized_nesting_limit,
  string_from, parse_string, trim_start, trim_end, ends_atom, atom_from, atom_value, parse_atom,
  at_end, at_other, next_of, Items, parse_list,
}

-- How deep the lists of a value nest.
abbrev mutual
  pub nesting : Value → ℕ
  nesting (Value.list vs) = suc (nestings vs)
  nesting (Value.string s) = 0
  nesting (Value.atom s) = 0
  nesting Value.null = 0

  pub nestings : Values → ℕ
  nestings nil = 0
  nestings (cons v vs) = max (nesting v) (nestings vs)

pub nestings-snoc : (vs : Values) (v : Value) → nestings (snoc vs v) ≡ max (nestings vs) (nesting v)
nestings-snoc nil v = omega arith
nestings-snoc (cons w ws) v = let tail = nestings-snoc ws v in omega (arith, tail)

skip_from-length :
    (rest : List ℕ) (p : Parser) → p.rest ≡ rest → length (skip_from rest p).rest ≤ length rest
unfolding skip_from
skip_from-length [] p e = omega (arith, ap length e)
skip_from-length (c ∷ cs) p e =
    let more = skip_from-length cs (step_from (c ∷ cs) p) refl in
    if_elim (λ q. length q.rest ≤ length (c ∷ cs)) (is_skipped c)
      (skip_from cs (step_from (c ∷ cs) p)) p (λ _. omega (arith, more))
      (λ _. omega (arith, ap length e))

pub skip_whitespace-length : (p : Parser) → length (skip_whitespace p).rest ≤ length p.rest
skip_whitespace-length p = skip_from-length p.rest p refl

step_from-length :
    (rest : List ℕ) (p : Parser)
    → next_of rest ≢ at_end
    → length (step_from rest p).rest < length rest
step_from-length [] p h = absurd (h refl)
step_from-length (c ∷ cs) p h = omega arith

pub step-length : (p : Parser) → next_of p.rest ≢ at_end → length (step p).rest < length p.rest
step-length p h = step_from-length p.rest p h

-- The parser has read on, and the value nests no deeper than the levels that are left.
abbrev pub Read : ℕ → ℕ → Value × Parser → Type 0
Read depth before (v, p) = (length p.rest < before) × (nesting v + depth ≤ serialized_nesting_limit)

string_from-Read :
    (depth segment : ℕ) (text rest : List ℕ) (p : Parser)
    → depth ≤ serialized_nesting_limit
    → Ensures (Read depth (suc (length rest))) (string_from segment text rest p)
unfolding string_from
string_from-Read depth segment text [] p h = rejected
string_from-Read depth segment text (c ∷ []) p h =
    if_elim (Ensures (Read depth 2)) (c == b'"') (ok (Value.string text, step_from (c ∷ []) p))
      (err (serialization_error segment (literal "unterminated metadata string")))
      (λ _. holds (omega arith, omega arith)) (λ _. rejected)
string_from-Read depth segment text (c ∷ (d ∷ ds)) p h =
    let after = step_from (c ∷ (d ∷ ds)) p in
    let both = step_from (d ∷ ds) after in
    let size = suc (length (c ∷ (d ∷ ds))) in
    let doubled = string_from both.offset (text ++ b'"' ∷ []) ds both in
    let on = string_from segment (text ++ c ∷ []) (d ∷ ds) after in
    let closes : Parsed Value = ok (Value.string text, after) in
    if_elim (Ensures (Read depth size)) (c == b'"') (if d == b'"' then doubled else closes) on
      (λ _.
        if_elim (Ensures (Read depth size)) (d == b'"') doubled closes
          (λ _.
            Ensures-weaken (string_from-Read depth both.offset (text ++ b'"' ∷ []) ds both h)
              (λ (v, q) (shorter, levels). (omega arith, levels)))
          (λ _. holds (omega arith, omega arith)))
      (λ _.
        Ensures-weaken (string_from-Read depth segment (text ++ c ∷ []) (d ∷ ds) after h)
          (λ (v, q) (shorter, levels). (omega arith, levels)))

atom_from-length :
    (rest : List ℕ) (p : Parser) → p.rest ≡ rest → length (atom_from rest p).1.rest ≤ length rest
unfolding atom_from
atom_from-length [] p e = omega (arith, ap length e)
atom_from-length (c ∷ cs) p e =
    let more = atom_from-length cs (step_from (c ∷ cs) p) refl in
    if_elim (λ (q : List ℕ × Parser). length q.1.rest ≤ length (c ∷ cs)) (ends_atom c) ([], p)
      (c ∷ (atom_from cs (step_from (c ∷ cs) p)).0, (atom_from cs (step_from (c ∷ cs) p)).1)
      (λ _. omega (arith, ap length e)) (λ _. omega (arith, more))

other-ends_atom : (c : ℕ) (cs : List ℕ) → next_of (c ∷ cs) ≡ at_other → ends_atom c ≡ false
other-ends_atom c cs h = ground arith

atom_from-shorter :
    (rest : List ℕ) (p : Parser)
    → next_of rest ≡ at_other
    → length (atom_from rest p).1.rest < length rest
unfolding atom_from
atom_from-shorter [] p h = cc
atom_from-shorter (c ∷ cs) p h =
    let more = atom_from-length cs (step_from (c ∷ cs) p) refl in
    rw (other-ends_atom c cs h) (omega (arith, more))

atom_value-Read :
    (depth before start : ℕ) (text : List ℕ) (p : Parser)
    → depth ≤ serialized_nesting_limit
    → length p.rest < before
    → Ensures (Read depth before) (atom_value start text p)
atom_value-Read depth before start [] p h k = rejected
atom_value-Read depth before start (c ∷ cs) p h k = holds (k, omega (arith, h))

pub parse_atom-Read :
    (depth : ℕ) (p : Parser)
    → depth ≤ serialized_nesting_limit
    → next_of p.rest ≡ at_other
    → Ensures (Read depth (length p.rest)) (parse_atom p)
unfolding parse_atom
parse_atom-Read depth p h e =
    let read = atom_from p.rest p in
    atom_value-Read depth (length p.rest) p.offset (trim_end (trim_start read.0)) read.1 h
      (atom_from-shorter p.rest p e)

pub parse_string-Read :
    (depth : ℕ) (p : Parser)
    → depth ≤ serialized_nesting_limit
    → next_of p.rest ≢ at_end
    → Ensures (Read depth (length p.rest)) (parse_string p)
parse_string-Read depth p h e =
    let shorter = step-length p e in
    Ensures-weaken (string_from-Read depth (step p).offset [] (step p).rest (step p) h)
      (λ (v, q) (less, levels). (omega arith, levels))

-- What the loop of a list promises on the texts shorter than its fuel.
unfoldable pub ItemsRead : ℕ → Items → Type 0
ItemsRead fuel items =
    (depth : ℕ) (values : Values) (expecting : Bool) (p : Parser)
    → length p.rest < fuel
    → depth < serialized_nesting_limit
    → nestings values + suc depth ≤ serialized_nesting_limit
    → Ensures (Read depth (length p.rest)) (items depth values expecting p)

pub parse_list-Read :
    (fuel : ℕ) (items : Items) (depth : ℕ) (p : Parser)
    → ItemsRead fuel items
    → length p.rest ≤ fuel
    → next_of p.rest ≢ at_end
    → Ensures (Read depth (length p.rest)) (parse_list items depth p)
unfolding parse_list ItemsRead
parse_list-Read fuel items depth p read enough e =
    let shorter = step-length p e in
    let skipped = skip_whitespace-length (step p) in
    elim (Bool-cases (leb serialized_nesting_limit depth)) [
      | inl deep ↦ rw deep rejected
      | inr shallow ↦ rw shallow (
          Ensures-weaken
            (read depth nil true (skip_whitespace (step p)) (omega arith) (ground arith)
              (ground arith))
            (λ (v, q) (less, levels). (omega arith, levels)))
    ]
