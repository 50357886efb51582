-- ===== src/Metadata/Value/Depth.antt =====
-- The values that the lists and the whole inputs of src/metadata/value.rs give.
use open_sdbl.Prelude.{
  ℕ, zero, suc, ◌+◌, ◌≤◌, ◌<◌, max, ◌≡◌, ◌≢◌, ◌⊎◌, refl, subst, Bool, true, false, not, ◌||◌, List,
  [], ◌∷◌, if◌then◌else◌, if_elim, inl, inr, length, arith,
}
use open_sdbl.Prelude.Result.{
  ok, stuck, ◌>>=◌, Ensures, holds, rejected, Ensures->>=, Ensures-weaken, Ensures-ok,
  Ensures-ne-stuck,
}
use open_sdbl.Metadata.Value.Data.{Value, Values, snoc, discards}
use open_sdbl.Metadata.Value.Parse.{
  Parser, step, Parsed, skip_whitespace, serialized_nesting_limit, Next, at_end, at_brace, at_close,
  at_comma, at_quote, at_other, next_of, Items, value_at, parse_value, member, items_at,
  complete_at, push, closed, is_nil, list_items, value_within, complete, parse_from, parse,
  expected_comma,
}
use open_sdbl.Metadata.Value.Total.{
  nesting, nestings, nestings-snoc, skip_whitespace-length, step-length, Read, parse_atom-Read,
  parse_string-Read, ItemsRead, parse_list-Read,
}

Waits : Next → Type 0
Waits n = (n ≡ at_comma) ⊎ (n ≡ at_close)

value_at-Read :
    (fuel before : ℕ) (items : Items) (depth : ℕ) (p : Parser) (n : Next)
    → next_of p.rest ≡ n
    → ItemsRead fuel items
    → length p.rest ≤ fuel
    → depth ≤ serialized_nesting_limit
    → length p.rest ≤ before
    → (Waits n → length p.rest < before)
    → Ensures (Read depth before) (value_at items depth p n)
unfolding Waits
value_at-Read fuel before items depth p at_end e read enough levels h waits = rejected
value_at-Read fuel before items depth p at_brace e read enough levels h waits =
    (Ensures-weaken (parse_list-Read fuel items depth p read enough (λ k. cc))
      (λ (v, q) (less, nested). (omega arith, nested)))
value_at-Read fuel before items depth p at_close e read enough levels h waits =
    (holds (waits (inr refl), omega arith))
value_at-Read fuel before items depth p at_comma e read enough levels h waits =
    (holds (waits (inl refl), omega arith))
value_at-Read fuel before items depth p at_quote e read enough levels h waits =
    (Ensures-weaken (parse_string-Read depth p levels (λ k. cc))
      (λ (v, q) (less, nested). (omega arith, nested)))
value_at-Read fuel before items depth p at_other e read enough levels h waits =
    (Ensures-weaken (parse_atom-Read depth p levels e)
      (λ (v, q) (less, nested). (omega arith, nested)))

parse_value-Read :
    (fuel before : ℕ) (items : Items) (depth : ℕ) (p : Parser)
    → ItemsRead fuel items
    → length p.rest ≤ fuel
    → depth ≤ serialized_nesting_limit
    → length p.rest ≤ before
    → (Waits (next_of p.rest) → length p.rest < before)
    → Ensures (Read depth before) (parse_value items depth p)
unfolding parse_value
parse_value-Read fuel before items depth p =
    value_at-Read fuel before items depth p (next_of p.rest) refl

nestings-push :
    (b : Bool) (values : Values) (v : Value)
    → nestings (push b values v) ≤ max (nestings values) (nesting v)
nestings-push b values v =
    if_elim (λ vs. nestings vs ≤ max (nestings values) (nesting v)) (discards b values) values
      (snoc values v) (λ _. omega arith) (λ _. omega (arith, nestings-snoc values v))

nesting-closed :
    (expecting : Bool) (values : Values) → nesting (closed expecting values) ≤ suc (nestings values)
nesting-closed expecting values =
    if_elim (λ v. nesting v ≤ suc (nestings values)) (not expecting || is_nil values)
      (Value.list values) (Value.list (snoc values Value.null)) (λ _. omega arith)
      (λ _. omega (arith, nestings-snoc values Value.null))

member-Read :
    (fuel depth : ℕ) (values : Values) (expecting : Bool) (here : Parser) (n : Next)
    → ItemsRead fuel (list_items fuel)
    → next_of here.rest ≡ n
    → ¬ Waits n
    → n ≢ at_end
    → length here.rest ≤ fuel
    → depth < serialized_nesting_limit
    → nestings values + suc depth ≤ serialized_nesting_limit
    → Ensures (Read depth (length here.rest)) (member (list_items fuel) depth values expecting here)
unfolding ItemsRead
member-Read fuel depth values expecting here n read e goes more enough h levels =
    let P = Ensures (Read depth (length here.rest)) in
    let value = parse_value (list_items fuel) (suc depth) here in
    let then_on : Value × Parser → Parsed Value =
      λ (v, after). list_items fuel depth (push here.identity_only values v) false after in
    if_elim P expecting (value >>= then_on) (expected_comma here)
      (λ _.
        Ensures->>= value then_on
          (parse_value-Read fuel (length here.rest) (list_items fuel) (suc depth) here read enough
            (omega arith) (omega arith) (λ w. absurd (goes (subst Waits e w))))
          (λ (v, after) _ (shorter, nested).
            let pushed = nestings-push here.identity_only values v in
            Ensures-weaken
              (read depth (push here.identity_only values v) false after (omega arith) h
                (omega arith))
              (λ (w, q) (less, nested'). (omega arith, nested'))))
      (λ _. rejected)

items_round-Read :
    (fuel depth : ℕ) (values : Values) (expecting : Bool) (p : Parser) (n : Next)
    → next_of (skip_whitespace p).rest ≡ n
    → ItemsRead fuel (list_items fuel)
    → length p.rest < suc fuel
    → depth < serialized_nesting_limit
    → nestings values + suc depth ≤ serialized_nesting_limit
    → Ensures
        (Read depth (length p.rest))
        (items_at (list_items fuel) depth values expecting (skip_whitespace p) n)
unfolding ItemsRead Waits
items_round-Read fuel depth values expecting p at_end e read enough h levels = rejected
items_round-Read fuel depth values expecting p at_close e read enough h levels =
    let here = skip_whitespace p in
    let skipped = skip_whitespace-length p in
    let shorter : length (step here).rest < length here.rest = step-length here (λ k. cc) in
    let nested = nesting-closed expecting values in holds (omega arith, omega arith)
items_round-Read fuel depth values expecting p at_comma e read enough h levels =
    let here = skip_whitespace p in
    let skipped = skip_whitespace-length p in
    let shorter : length (step here).rest < length here.rest = step-length here (λ k. cc) in
    let values' = if expecting then snoc values Value.null else values in
    let levels' : nestings values' + suc depth ≤ serialized_nesting_limit =
      if_elim (λ vs. nestings vs + suc depth ≤ serialized_nesting_limit) expecting
        (snoc values Value.null) values (λ _. omega (arith, nestings-snoc values Value.null))
        (λ _. levels) in
    Ensures-weaken (read depth values' true (step here) (omega arith) h levels')
      (λ (v, q) (less, nested). (omega arith, nested))
items_round-Read fuel depth values expecting p at_brace e read enough h levels =
    Ensures-weaken
      (member-Read fuel depth values expecting (skip_whitespace p) at_brace read e
        (λ w. elim w [ inl k ↦ cc | inr k ↦ cc ]) (λ k. cc)
        (omega (arith, skip_whitespace-length p)) h levels)
      (λ (v, q) (less, nested). (omega (arith, skip_whitespace-length p), nested))
items_round-Read fuel depth values expecting p at_quote e read enough h levels =
    Ensures-weaken
      (member-Read fuel depth values expecting (skip_whitespace p) at_quote read e
        (λ w. elim w [ inl k ↦ cc | inr k ↦ cc ]) (λ k. cc)
        (omega (arith, skip_whitespace-length p)) h levels)
      (λ (v, q) (less, nested). (omega (arith, skip_whitespace-length p), nested))
items_round-Read fuel depth values expecting p at_other e read enough h levels =
    Ensures-weaken
      (member-Read fuel depth values expecting (skip_whitespace p) at_other read e
        (λ w. elim w [ inl k ↦ cc | inr k ↦ cc ]) (λ k. cc)
        (omega (arith, skip_whitespace-length p)) h levels)
      (λ (v, q) (less, nested). (omega (arith, skip_whitespace-length p), nested))

pub list_items-ItemsRead : (fuel : ℕ) → ItemsRead fuel (list_items fuel)
unfolding list_items ItemsRead
list_items-ItemsRead zero depth values expecting p enough h levels = absurd (omega arith)
list_items-ItemsRead (suc fuel) depth values expecting p enough h levels =
    items_round-Read fuel depth values expecting p (next_of (skip_whitespace p).rest) refl
      (list_items-ItemsRead fuel) enough h levels

Within : Value → Type 0
Within v = nesting v ≤ serialized_nesting_limit

complete_at-Within :
    (v : Value) (here : Parser) (rest : List ℕ)
    → Within v
    → Ensures Within (complete_at v here rest)
complete_at-Within v here [] h = holds h
complete_at-Within v here (c ∷ cs) h = rejected

value_within-Read :
    (p : Parser) → Ensures (Read 0 (suc (length p.rest))) (value_within (length p.rest + 1) p)
value_within-Read p =
    parse_value-Read (length p.rest + 1) (suc (length p.rest)) (list_items (length p.rest + 1)) 0 p
      (list_items-ItemsRead (length p.rest + 1)) (omega arith) (omega arith) (omega arith)
      (λ _. omega arith)

parse_from-Within :
    (rest : List ℕ) (p : Parser) → p.rest ≡ rest → Ensures Within (parse_from rest p)
unfolding Within
parse_from-Within [] p e = rejected
parse_from-Within (c ∷ cs) p e =
    Ensures->>= (value_within (length (c ∷ cs) + 1) p) complete
      (subst (λ r. Ensures (Read 0 (suc (length r))) (value_within (length r + 1) p)) e
        (value_within-Read p))
      (λ (v, q) _ (shorter, nested).
        complete_at-Within v (skip_whitespace q) (skip_whitespace q).rest (omega (arith, nested)))

parse-Within : (p : Parser) → Ensures Within (parse p)
unfolding parse
parse-Within p = parse_from-Within (skip_whitespace p).rest (skip_whitespace p) refl

-- The parser ends on every text, whether or not it keeps only what identifies an object: it gives a
-- value or an error.
pub parse-ne-stuck : (p : Parser) → parse p ≢ stuck
unfolding Within
parse-ne-stuck p = Ensures-ne-stuck (parse-Within p)

-- The lists of a value that the parser gives nest at most 512 deep.
pub parse-nesting : (p : Parser) (v : Value) → parse p ≡ ok v → nesting v ≤ serialized_nesting_limit
unfolding Within
parse-nesting p v e = Ensures-ok (parse-Within p) e
