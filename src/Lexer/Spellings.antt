-- ===== src/Lexer/Spellings.antt =====
-- `keyword` of src/lexer.rs against the table of spellings.
use mathlib.Core.List.{Memᴰ}
use open_sdbl.Prelude.{
  ℕ, ◌≡◌, ◌↔◌, ◌⊎◌, inl, inr, refl, sym, ap, subst, ◌∙◌, Bool, true, not, ◌&&◌, ◌||◌, List, [], ◌∷◌,
  ◌++◌, some, if_elim, Bool-cases, codes, arith,
}
use open_sdbl.Lexer.Keyword.{Keyword}
use open_sdbl.Lexer.Keywords.{Spelling, keywords}
use open_sdbl.Lexer.Chars.{CharTables, byte_length, within}
use open_sdbl.Lexer.Lookup.{
  chars_eq, chars_eq-true, chars_eq_refl, uppercase, keyword_spelling_eq, find_keyword, keyword,
}

-- The characters of the spellings: Latin and Russian capitals, and digits.
abbrev pub is_capital : ℕ → Bool
is_capital c = within b'A' b'Z' c || within b'0' b'9' c || within 0x410 0x42f c

abbrev capitals : List ℕ → Bool
capitals [] = true
capitals (c ∷ cs) = is_capital c && capitals cs

abbrev all_capitals : List Spelling → Bool
all_capitals [] = true
all_capitals (s ∷ ss) =
    (capitals (codes s.russian) && capitals (codes s.english)) && all_capitals ss

keywords-all_capitals : all_capitals keywords ≡ true
keywords-all_capitals = refl

-- No two rows share a spelling.
abbrev apart : Spelling → Spelling → Bool
apart r s =
    not (chars_eq (codes r.russian) (codes s.russian))
    && not (chars_eq (codes r.russian) (codes s.english))
    && not (chars_eq (codes r.english) (codes s.russian))
    && not (chars_eq (codes r.english) (codes s.english))

abbrev apart_from : Spelling → List Spelling → Bool
apart_from r [] = true
apart_from r (s ∷ ss) = apart r s && apart_from r ss

abbrev all_apart : List Spelling → Bool
all_apart [] = true
all_apart (s ∷ ss) = apart_from s ss && all_apart ss

keywords-all_apart : all_apart keywords ≡ true
unfolding chars_eq
keywords-all_apart = refl

module _ (tables : CharTables)
    (capital_fixed : (c : ℕ) → is_capital c ≡ true → tables.to_uppercase c ≡ c ∷ []) where
  -- A text spells a word: it has its capitals and its bytes.
  abbrev pub Spelled : List ℕ → List ℕ → Type 0
  Spelled text word = (byte_length text ≡ byte_length word) × (uppercase tables text ≡ word)

  abbrev pub Matches : List ℕ → Spelling → Type 0
  Matches text s = Spelled text (codes s.russian) ⊎ Spelled text (codes s.english)

  uppercase-capitals : (cs : List ℕ) → capitals cs ≡ true → uppercase tables cs ≡ cs
  unfolding uppercase
  uppercase-capitals [] h = refl
  uppercase-capitals (c ∷ cs) h =
      let first : is_capital c ≡ true = ground arith in
      let rest : capitals cs ≡ true = ground arith in
      ap (λ l. l ++ uppercase tables cs) (capital_fixed c first)
      ∙ ap (λ l. c ∷ l) (uppercase-capitals cs rest)

  spelling_eq-Spelled :
      (text word : List ℕ)
      → capitals word ≡ true
      → keyword_spelling_eq tables text word ≡ true
      → Spelled text word
  unfolding keyword_spelling_eq
  spelling_eq-Spelled text word h e =
      let equal : chars_eq (uppercase tables text) (uppercase tables word) ≡ true = ground arith in
      (
        ground arith,
        chars_eq-true (uppercase tables text) (uppercase tables word) equal
            ∙ uppercase-capitals word h,
      )

  Spelled-spelling_eq :
      (text word : List ℕ)
      → capitals word ≡ true
      → Spelled text word
      → keyword_spelling_eq tables text word ≡ true
  unfolding keyword_spelling_eq
  Spelled-spelling_eq text word h (size, same) =
      let equal : chars_eq (uppercase tables text) (uppercase tables word) ≡ true =
        ap (λ w. chars_eq w (uppercase tables word)) (same ∙ sym (uppercase-capitals word h))
        ∙ chars_eq_refl (uppercase tables word) in
      ground arith

  row_matches : List ℕ → Spelling → Bool
  row_matches text s =
      keyword_spelling_eq tables text (codes s.russian)
      || keyword_spelling_eq tables text (codes s.english)

  row_matches-Matches :
      (text : List ℕ) (s : Spelling)
      → (capitals (codes s.russian) && capitals (codes s.english)) ≡ true
      → row_matches text s ≡ true
      → Matches text s
  unfolding row_matches
  row_matches-Matches text s h e =
      let russian : capitals (codes s.russian) ≡ true = ground arith in
      let english : capitals (codes s.english) ≡ true = ground arith in
      elim (Bool-cases (keyword_spelling_eq tables text (codes s.russian))) [
        | inl r ↦ inl (spelling_eq-Spelled text (codes s.russian) russian r)
        | inr r ↦ inr (spelling_eq-Spelled text (codes s.english) english (ground arith))
      ]

  Matches-row_matches :
      (text : List ℕ) (s : Spelling)
      → (capitals (codes s.russian) && capitals (codes s.english)) ≡ true
      → Matches text s
      → row_matches text s ≡ true
  unfolding row_matches
  Matches-row_matches text s h (inl r) =
      let equal = Spelled-spelling_eq text (codes s.russian) (ground arith) r in ground arith
  Matches-row_matches text s h (inr r) =
      let equal = Spelled-spelling_eq text (codes s.english) (ground arith) r in ground arith

  shared : (text a b : List ℕ) → Spelled text a → Spelled text b → chars_eq a b ≡ true
  shared text a b (_, h) (_, k) = ap (λ w. chars_eq w b) (sym h ∙ k) ∙ chars_eq_refl b

  apart-Matches :
      (text : List ℕ) (r s : Spelling) → apart r s ≡ true → Matches text r → Matches text s → ⊥
  apart-Matches text r s h (inl a) (inl b) =
      let same = shared text (codes r.russian) (codes s.russian) a b in ground arith
  apart-Matches text r s h (inl a) (inr b) =
      let same = shared text (codes r.russian) (codes s.english) a b in ground arith
  apart-Matches text r s h (inr a) (inl b) =
      let same = shared text (codes r.english) (codes s.russian) a b in ground arith
  apart-Matches text r s h (inr a) (inr b) =
      let same = shared text (codes r.english) (codes s.english) a b in ground arith

  apart_from-Matches :
      (text : List ℕ) (r s : Spelling) (ss : List Spelling)
      → apart_from r ss ≡ true
      → Memᴰ s ss
      → Matches text r
      → Matches text s
      → ⊥
  apart_from-Matches text r s [] h m a b = elim m [ ]
  apart_from-Matches text r s (x ∷ xs) h (Memᴰ.head e) a b =
      let here : apart r x ≡ true = ground arith in
      apart-Matches text r x here a (subst (Matches text) e b)
  apart_from-Matches text r s (x ∷ xs) h (Memᴰ.tail m) a b =
      apart_from-Matches text r s xs (ground arith) m a b

  -- A row of the table spells the text for a keyword.
  abbrev pub Spells : List Spelling → List ℕ → Keyword → Type 0
  Spells rows text k = (s : Spelling) × Memᴰ s rows × (s.keyword ≡ k) × Matches text s

  find_keyword-Spells :
      (rows : List Spelling) (text : List ℕ) (k : Keyword)
      → all_capitals rows ≡ true
      → find_keyword tables text rows ≡ some k
      → Spells rows text k
  unfolding find_keyword row_matches
  find_keyword-Spells [] text k h e = cc
  find_keyword-Spells (s ∷ ss) text k h e =
      let these : (capitals (codes s.russian) && capitals (codes s.english)) ≡ true =
        ground arith in
      let rest : all_capitals ss ≡ true = ground arith in
      if_elim (λ o. o ≡ some k → Spells (s ∷ ss) text k) (row_matches text s) (some s.keyword)
        (find_keyword tables text ss)
        (λ matches found. (s, Memᴰ.head refl, cc, row_matches-Matches text s these matches))
        (λ _ found.
          let (x, m, is, matches) = find_keyword-Spells ss text k rest found in
          (x, Memᴰ.tail m, is, matches))
        e

  Spells-find_keyword :
      (rows : List Spelling) (text : List ℕ) (s : Spelling)
      → all_capitals rows ≡ true
      → all_apart rows ≡ true
      → Memᴰ s rows
      → Matches text s
      → find_keyword tables text rows ≡ some s.keyword
  unfolding find_keyword row_matches
  Spells-find_keyword [] text s h k m matches = elim m [ ]
  Spells-find_keyword (r ∷ rs) text s h k (Memᴰ.head e) matches =
      let these : (capitals (codes r.russian) && capitals (codes r.english)) ≡ true =
        ground arith in
      rw (Matches-row_matches text r these (subst (Matches text) e matches))
        (ap (λ (x : Spelling). some x.keyword) (sym e))
  Spells-find_keyword (r ∷ rs) text s h k (Memᴰ.tail m) matches =
      let these : (capitals (codes r.russian) && capitals (codes r.english)) ≡ true =
        ground arith in
      if_elim (λ o. o ≡ some s.keyword) (row_matches text r) (some r.keyword)
        (find_keyword tables text rs)
        (λ other. absurd (
          apart_from-Matches text r s rs (ground arith) m (row_matches-Matches text r these other)
            matches))
        (λ _. Spells-find_keyword rs text s (ground arith) (ground arith) m matches)

  -- If Latin and Russian capitals and digits are their own upper case, then a text is a keyword exactly
  -- when a row of the table has that keyword and one of the row's two spellings is the upper case of
  -- the text and has as many bytes as the text.
  pub keyword-Spells :
      (text : List ℕ) (k : Keyword) → (keyword tables text ≡ some k) ↔ Spells keywords text k
  unfolding keyword
  keyword-Spells text k = (
    find_keyword-Spells keywords text k keywords-all_capitals,
    λ (s, m, is, matches).
        Spells-find_keyword keywords text s keywords-all_capitals keywords-all_apart m matches
        ∙ ap some is,
  )
