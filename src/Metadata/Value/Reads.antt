-- ===== src/Metadata/Value/Reads.antt =====
-- The parser of src/metadata/value.rs on the texts of values: how a list is entered, and its rounds.
use open_sdbl.Prelude.{
  ℕ, zero, suc, ◌+◌, ◌≤◌, ◌<◌, ◌≡◌, refl, ap, ◌∙◌, Bool, true, false, ◌&&◌, List, [], ◌∷◌, ◌++◌,
  arith, leb, if◌then◌else◌, length, length-append,
}
use open_sdbl.Prelude.Result.{ok, ◌>>=◌}
use open_sdbl.Lexer.Shape.{escape}
use open_sdbl.Metadata.Value.Data.{Value, Values, nil, cons, snoc, discards}
use open_sdbl.Metadata.Value.Parse.{
  Parser, Parsed, skip_from, serialized_nesting_limit, at_other, next_of, Items, parse_list,
  value_at, parse_value, push, closed, member, is_nil, items_at, list_items,
}
use open_sdbl.Metadata.Value.Total.{nesting, nestings}
use open_sdbl.Metadata.Value.Print.{
  print, print_items, IsAtom, is_single_null, Printable, AllPrintable, Follows, before, Reads,
  Stays, is_skipped-Stays, is_skipped-begins, parse_string-escape, parse_atom-append,
}

abbrev pub is_null : Value → Bool
is_null Value.null = true
is_null (Value.list vs) = false
is_null (Value.string s) = false
is_null (Value.atom a) = false

-- Texts of values begin with no white space, and are not empty.
mutual
  length-print : (v : Value) (rest : List ℕ) → length rest ≤ length (print v rest)
  length-print (Value.list vs) rest = omega (arith, length-print_items vs (b'}' ∷ rest))
  length-print (Value.string s) rest = omega (arith, length-append (escape s) (b'"' ∷ rest))
  length-print (Value.atom a) rest = omega (arith, length-append a rest)
  length-print Value.null rest = omega arith

  pub length-print_items :
      (vs : Values) (rest : List ℕ) → length rest ≤ length (print_items vs rest)
  length-print_items nil rest = omega arith
  length-print_items (cons v nil) rest = length-print v rest
  length-print_items (cons v (cons w ws)) rest = omega (
    arith,
    length-print v (b',' ∷ print_items (cons w ws) rest),
    length-print_items (cons w ws) rest,
  )

pub length-print-lt :
    (v : Value) (rest : List ℕ)
    → Printable v
    → is_null v ≡ false
    → length rest < length (print v rest)
length-print-lt (Value.list vs) rest h k = omega (arith, length-print_items vs (b'}' ∷ rest))
length-print-lt (Value.string s) rest h k = omega (arith, length-append (escape s) (b'"' ∷ rest))
length-print-lt (Value.atom []) rest h k = absurd h
length-print-lt (Value.atom (c ∷ cs)) rest h k = omega (arith, length-append (c ∷ cs) rest)
length-print-lt Value.null rest h k = cc

pub print-Stays : (v : Value) (rest : List ℕ) → Printable v → Stays rest → Stays (print v rest)
unfolding skip_from
print-Stays (Value.list vs) rest h k offset = refl
print-Stays (Value.string s) rest h k offset = refl
print-Stays (Value.atom []) rest h k offset = absurd h
print-Stays (Value.atom (c ∷ cs)) rest h k offset =
    is_skipped-Stays c (cs ++ rest) (is_skipped-begins c h.begins) offset
print-Stays Value.null rest h k offset = k offset

print_items-Stays :
    (vs : Values) (rest : List ℕ) → AllPrintable vs → Stays rest → Stays (print_items vs rest)
unfolding skip_from
print_items-Stays nil rest h k = k
print_items-Stays (cons v nil) rest (h, hs) k = print-Stays v rest h k
print_items-Stays (cons v (cons w ws)) rest (h, hs) k =
    print-Stays v (b',' ∷ print_items (cons w ws) rest) h (λ offset. refl)

-- The rounds of the loop of a list.
pub items-close :
    (fuel depth : ℕ) (values : Values) (expecting : Bool) (rest : List ℕ)
    → (offset : ℕ)
    → list_items (suc fuel) depth values expecting (before (b'}' ∷ rest) offset)
      ≡ ok (closed expecting values, before rest (offset + 1))
unfolding list_items skip_from
items-close fuel depth values expecting rest offset = refl

pub items-comma :
    (fuel depth : ℕ) (values : Values) (expecting : Bool) (rest : List ℕ)
    → (offset : ℕ)
    → list_items (suc fuel) depth values expecting (before (b',' ∷ rest) offset)
      ≡ list_items fuel depth
          (if expecting then snoc values Value.null else values)
          true
          (before rest (offset + 1))
unfolding list_items skip_from
items-comma fuel depth values expecting rest offset = refl

atom-next_of : (c : ℕ) (cs rest : List ℕ) → IsAtom c cs → next_of (c ∷ (cs ++ rest)) ≡ at_other
atom-next_of c cs rest h = let inside = h.inside.0 in let quote = h.no_quote in ground arith

push-snoc : (values : Values) (v : Value) → push false values v ≡ snoc values v
unfolding discards
push-snoc nil v = refl
push-snoc (cons w nil) v = refl
push-snoc (cons w (cons x xs)) v = refl

items-enters :
    (fuel depth : ℕ) (values : Values) (v : Value) (rest : List ℕ) (offset : ℕ)
    → Printable v
    → is_null v ≡ false
    → list_items (suc fuel) depth values true (before (print v rest) offset)
      ≡ member (list_items fuel) depth values true (before (print v rest) offset)
unfolding list_items skip_from
items-enters fuel depth values (Value.list vs) rest offset h k = refl
items-enters fuel depth values (Value.string s) rest offset h k = refl
items-enters fuel depth values (Value.atom []) rest offset h k = absurd h
items-enters fuel depth values (Value.atom (c ∷ cs)) rest offset h k =
    let p = before (c ∷ (cs ++ rest)) offset in
    ap (λ (here : Parser). items_at (list_items fuel) depth values true here (next_of here.rest))
      (is_skipped-Stays c (cs ++ rest) (is_skipped-begins c h.begins) offset)
    ∙ ap (items_at (list_items fuel) depth values true p) (atom-next_of c cs rest h)
items-enters fuel depth values Value.null rest offset h k = cc

pub items-member :
    (fuel depth : ℕ) (values : Values) (v : Value) (rest : List ℕ) (offset end : ℕ)
    → Printable v
    → is_null v ≡ false
    → parse_value (list_items fuel) (suc depth) (before (print v rest) offset)
      ≡ ok (v, before rest end)
    → list_items (suc fuel) depth values true (before (print v rest) offset)
      ≡ list_items fuel depth (snoc values v) false (before rest end)
items-member fuel depth values v rest offset end h k e =
    items-enters fuel depth values v rest offset h k
    ∙ ap
        (λ (r : Parsed Value).
          r >>= λ (w, after). list_items fuel depth (push false values w) false after)
        e
    ∙ ap (λ vs. list_items fuel depth vs false (before rest end)) (push-snoc values v)

abbrev pub plus : Values → Values → Values
plus nil ws = ws
plus (cons v vs) ws = cons v (plus vs ws)

pub plus_nil : (vs : Values) → plus vs nil ≡ vs
plus_nil nil = refl
plus_nil (cons v vs) = ap (cons v) (plus_nil vs)

pub plus-snoc : (vs ws : Values) (v : Value) → plus (snoc vs v) ws ≡ plus vs (cons v ws)
plus-snoc nil ws v = refl
plus-snoc (cons u vs) ws v = ap (cons u) (plus-snoc vs ws v)

pub is_nil-snoc : (vs : Values) (v : Value) → is_nil (snoc vs v) ≡ false
is_nil-snoc nil v = refl
is_nil-snoc (cons w ws) v = refl

pub closed_last :
    (values : Values)
    → is_nil values ≡ false
    → closed true values ≡ Value.list (snoc values Value.null)
closed_last nil h = cc
closed_last (cons v vs) h = refl

-- What the loop of a list gives on the texts of at least one value that are shorter than its fuel.
unfoldable pub ItemsReads : ℕ → Items → Type 0
ItemsReads fuel items =
    (depth : ℕ) (values : Values) (v : Value) (vs : Values) (rest : List ℕ) (offset : ℕ)
    → AllPrintable (cons v vs)
    → (is_nil values && is_single_null (cons v vs)) ≡ false
    → length (print_items (cons v vs) (b'}' ∷ rest)) < fuel
    → nestings (cons v vs) + suc depth ≤ serialized_nesting_limit
    → Reads (items depth values true (before (print_items (cons v vs) (b'}' ∷ rest)) offset))
        (Value.list (plus values (cons v vs))) rest

parse_list-enters :
    (fuel depth : ℕ) (vs : Values) (rest : List ℕ) (offset : ℕ)
    → AllPrintable vs
    → depth < serialized_nesting_limit
    → parse_list (list_items fuel) depth (before (print (Value.list vs) rest) offset)
      ≡ list_items fuel depth nil true (before (print_items vs (b'}' ∷ rest)) (offset + 1))
unfolding parse_list
parse_list-enters fuel depth vs rest offset h levels =
    let shallow : leb serialized_nesting_limit depth ≡ false = ground arith in
    rw shallow (
      ap (list_items fuel depth nil true)
        (print_items-Stays vs (b'}' ∷ rest) h (is_skipped-Stays b'}' rest refl) (offset + 1)))

items-empty :
    (fuel depth : ℕ) (rest : List ℕ) (offset : ℕ)
    → 1 ≤ fuel
    → Reads (list_items fuel depth nil true (before (b'}' ∷ rest) offset)) (Value.list nil) rest
items-empty zero depth rest offset h = absurd (omega arith)
items-empty (suc fuel) depth rest offset h =
    (offset + 1, items-close fuel depth nil true rest offset)

items-list :
    (fuel depth : ℕ) (vs : Values) (rest : List ℕ) (offset : ℕ)
    → ItemsReads fuel (list_items fuel)
    → Printable (Value.list vs)
    → length (print (Value.list vs) rest) ≤ fuel
    → nesting (Value.list vs) + depth ≤ serialized_nesting_limit
    → Reads
        (list_items fuel depth nil true (before (print_items vs (b'}' ∷ rest)) offset))
        (Value.list vs)
        rest
unfolding ItemsReads
items-list fuel depth nil rest offset reads h enough levels =
    items-empty fuel depth rest offset (omega arith)
items-list fuel depth (cons v vs) rest offset reads (single, h) enough levels =
    reads depth nil v vs rest offset h single (omega arith) (omega arith)

pub value-reads :
    (fuel depth : ℕ) (v : Value) (rest : List ℕ) (offset : ℕ)
    → ItemsReads fuel (list_items fuel)
    → Printable v
    → is_null v ≡ false
    → Follows rest
    → length (print v rest) ≤ fuel
    → nesting v + depth ≤ serialized_nesting_limit
    → Reads (parse_value (list_items fuel) depth (before (print v rest) offset)) v rest
unfolding parse_value
value-reads fuel depth (Value.list vs) rest offset reads h k follows enough levels =
    let (end, e) = items-list fuel depth vs rest (offset + 1) reads h enough levels in
    (end, parse_list-enters fuel depth vs rest offset h.1 (omega arith) ∙ e)
value-reads fuel depth (Value.string s) rest offset reads h k follows enough levels =
    parse_string-escape s rest offset follows
value-reads fuel depth (Value.atom []) rest offset reads h k follows enough levels = absurd h
value-reads fuel depth (Value.atom (c ∷ cs)) rest offset reads h k follows enough levels =
    let (end, e) = parse_atom-append c cs rest offset h follows in
    let p = before (c ∷ (cs ++ rest)) offset in
    (end, ap (value_at (list_items fuel) depth p) (atom-next_of c cs rest h) ∙ e)
value-reads fuel depth Value.null rest offset reads h k follows enough levels = cc
