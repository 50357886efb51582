-- ===== src/Metadata/Value/RoundTrip.antt =====
-- The parser of src/metadata/value.rs reads back the texts of values.
use open_sdbl.Prelude.{
  ℕ, zero, suc, ◌+◌, ◌≤◌, ◌<◌, ◌≡◌, refl, sym, ap, ◌∙◌, true, false, ◌&&◌, List, [], ◌∷◌, arith,
  length,
}
use open_sdbl.Prelude.Result.{ok, ◌>>=◌}
use open_sdbl.Metadata.Value.Data.{Value, Values, nil, cons, snoc}
use open_sdbl.Metadata.Value.Parse.{
  Parser, new_parser, Parsed, skip_from, serialized_nesting_limit, is_nil, list_items, value_within,
  complete, parse_from, parse,
}
use open_sdbl.Metadata.Value.Total.{nesting, nestings}
use open_sdbl.Metadata.Value.Print.{
  print, print_items, is_single_null, Printable, AllPrintable, before, Reads,
}
use open_sdbl.Metadata.Value.Reads.{
  is_null, length-print_items, length-print-lt, print-Stays, items-close, items-comma, items-member,
  plus, plus_nil, plus-snoc, is_nil-snoc, closed_last, ItemsReads, value-reads,
}

items-last :
    (fuel depth : ℕ) (values : Values) (v : Value) (rest : List ℕ) (offset : ℕ)
    → ItemsReads (suc fuel) (list_items (suc fuel))
    → Printable v
    → is_null v ≡ false
    → length (print v (b'}' ∷ rest)) ≤ suc fuel
    → nesting v + suc depth ≤ serialized_nesting_limit
    → Reads
        (list_items (suc (suc fuel)) depth values true (before (print v (b'}' ∷ rest)) offset))
        (Value.list (plus values (cons v nil)))
        rest
items-last fuel depth values v rest offset reads h k enough levels =
    let (end, e) =
      value-reads (suc fuel) (suc depth) v (b'}' ∷ rest) offset reads h k refl enough levels in
    (
      end + 1,
      items-member (suc fuel) depth values v (b'}' ∷ rest) offset end h k e
          ∙ items-close fuel depth (snoc values v) false rest end
          ∙ ap (λ vs. ok (Value.list vs, before rest (end + 1)))
              (sym (plus_nil (snoc values v)) ∙ plus-snoc values nil v),
    )

items-next :
    (fuel depth : ℕ) (values : Values) (v w : Value) (ws : Values) (rest : List ℕ) (offset : ℕ)
    → ItemsReads fuel (list_items fuel)
    → ItemsReads (suc fuel) (list_items (suc fuel))
    → AllPrintable (cons v (cons w ws))
    → is_null v ≡ false
    → length (print_items (cons v (cons w ws)) (b'}' ∷ rest)) < suc (suc fuel)
    → nestings (cons v (cons w ws)) + suc depth ≤ serialized_nesting_limit
    → Reads
        (list_items
          (suc (suc fuel))
          depth
          values
          true
          (before (print_items (cons v (cons w ws)) (b'}' ∷ rest)) offset))
        (Value.list (plus values (cons v (cons w ws))))
        rest
unfolding ItemsReads
items-next fuel depth values v w ws rest offset reads reads' (h, hs) k enough levels =
    let more = print_items (cons w ws) (b'}' ∷ rest) in
    let (end, e) =
      value-reads (suc fuel) (suc depth) v (b',' ∷ more) offset reads' h k refl (omega arith)
        (omega arith) in
    let shorter = length-print-lt v (b',' ∷ more) h k in
    let not_first = ap (λ b. b && is_single_null (cons w ws)) (is_nil-snoc values v) in
    let (last, e') =
      reads depth (snoc values v) w ws rest (end + 1) hs not_first (omega arith) (omega arith) in
    (
      last,
      items-member (suc fuel) depth values v (b',' ∷ more) offset end h k e
          ∙ items-comma fuel depth (snoc values v) false more end
          ∙ e'
          ∙ ap (λ vs. ok (Value.list vs, before rest last)) (plus-snoc values (cons w ws) v),
    )

items-filled :
    (fuel depth : ℕ) (values : Values) (v : Value) (vs : Values) (rest : List ℕ) (offset : ℕ)
    → ItemsReads fuel (list_items fuel)
    → ItemsReads (suc fuel) (list_items (suc fuel))
    → AllPrintable (cons v vs)
    → is_null v ≡ false
    → length (print_items (cons v vs) (b'}' ∷ rest)) < suc (suc fuel)
    → nestings (cons v vs) + suc depth ≤ serialized_nesting_limit
    → Reads
        (list_items
          (suc (suc fuel))
          depth
          values
          true
          (before (print_items (cons v vs) (b'}' ∷ rest)) offset))
        (Value.list (plus values (cons v vs)))
        rest
items-filled fuel depth values v nil rest offset reads reads' h k enough levels =
    items-last fuel depth values v rest offset reads' h.0 k (omega arith) (omega arith)
items-filled fuel depth values v (cons w ws) rest offset reads reads' h k enough levels =
    items-next fuel depth values v w ws rest offset reads reads' h k enough levels

items-omitted :
    (fuel depth : ℕ) (values vs : Values) (rest : List ℕ) (offset : ℕ)
    → ItemsReads fuel (list_items fuel)
    → AllPrintable (cons Value.null vs)
    → (is_nil values && is_single_null (cons Value.null vs)) ≡ false
    → length (print_items (cons Value.null vs) (b'}' ∷ rest)) < suc fuel
    → nestings (cons Value.null vs) + suc depth ≤ serialized_nesting_limit
    → Reads
        (list_items
          (suc fuel)
          depth
          values
          true
          (before (print_items (cons Value.null vs) (b'}' ∷ rest)) offset))
        (Value.list (plus values (cons Value.null vs)))
        rest
unfolding ItemsReads
items-omitted fuel depth values nil rest offset reads h k enough levels =
    let filled : is_nil values ≡ false = ground arith in
    (
      offset + 1,
      items-close fuel depth values true rest offset
          ∙ ap (λ v. ok (v, before rest (offset + 1)))
              (closed_last values filled
                ∙ ap Value.list
                    (sym (plus_nil (snoc values Value.null)) ∙ plus-snoc values nil Value.null)),
    )
items-omitted fuel depth values (cons w ws) rest offset reads (h, hs) k enough levels =
    let more = print_items (cons w ws) (b'}' ∷ rest) in
    let not_first = ap (λ b. b && is_single_null (cons w ws)) (is_nil-snoc values Value.null) in
    let (last, e) =
      reads depth (snoc values Value.null) w ws rest (offset + 1) hs not_first (omega arith)
        (omega arith) in
    (
      last,
      items-comma fuel depth values true more offset
          ∙ e
          ∙ ap (λ vs. ok (Value.list vs, before rest last))
              (plus-snoc values (cons w ws) Value.null),
    )

list_items-ItemsReads : (fuel : ℕ) → ItemsReads fuel (list_items fuel)
unfolding ItemsReads
list_items-ItemsReads zero depth values v vs rest offset h single enough levels =
    absurd (omega arith)
list_items-ItemsReads (suc zero) depth values v vs rest offset h single enough levels =
    absurd (omega (arith, length-print_items (cons v vs) (b'}' ∷ rest)))
list_items-ItemsReads (suc (suc fuel)) depth values Value.null vs rest offset h single enough
      levels =
    items-omitted (suc fuel) depth values vs rest offset (list_items-ItemsReads (suc fuel)) h single
      enough levels
list_items-ItemsReads (suc (suc fuel)) depth values (Value.list us) vs rest offset h single enough
      levels =
    items-filled fuel depth values (Value.list us) vs rest offset (list_items-ItemsReads fuel)
      (list_items-ItemsReads (suc fuel)) h refl enough levels
list_items-ItemsReads (suc (suc fuel)) depth values (Value.string s) vs rest offset h single enough
      levels =
    items-filled fuel depth values (Value.string s) vs rest offset (list_items-ItemsReads fuel)
      (list_items-ItemsReads (suc fuel)) h refl enough levels
list_items-ItemsReads (suc (suc fuel)) depth values (Value.atom a) vs rest offset h single enough
      levels =
    items-filled fuel depth values (Value.atom a) vs rest offset (list_items-ItemsReads fuel)
      (list_items-ItemsReads (suc fuel)) h refl enough levels

parse_from-reads :
    (text : List ℕ) (p : Parser) (v : Value) (end : ℕ)
    → 1 ≤ length text
    → value_within (length text + 1) p ≡ ok (v, before [] end)
    → parse_from text p ≡ ok v
unfolding skip_from
parse_from-reads [] p v end h e = absurd (omega arith)
parse_from-reads (c ∷ cs) p v end h e = ap (λ (r : Parsed Value). r >>= complete) e

-- A value other than an omitted one, whose lists nest at most 512 deep, whose atoms are neither empty
-- nor broken by a delimiter or outer white space, and which has no list of a single omitted value, is
-- what the parser gives for its text: lists in braces, members between commas, strings in quotes with
-- each quote of the content doubled, atoms as they are, and nothing for an omitted value.
pub parse-print :
    (v : Value)
    → Printable v
    → is_null v ≡ false
    → nesting v ≤ serialized_nesting_limit
    → parse (new_parser (print v [])) ≡ ok v
unfolding parse skip_from
parse-print v h k levels =
    let text = print v [] in
    let fuel = length text + 1 in
    let (end, e) =
      value-reads fuel 0 v [] 0 (list_items-ItemsReads fuel) h k tt (omega arith) (omega arith) in
    ap (λ (p : Parser). parse_from p.rest p) (print-Stays v [] h (λ offset. refl) 0)
    ∙ parse_from-reads text (before text 0) v end (length-print-lt v [] h k) e
