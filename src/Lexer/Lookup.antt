-- ===== src/Lexer/Lookup.antt =====
-- `keyword` of src/lexer.rs: the first table row with a spelling that agrees up to case.
use open_sdbl.Prelude.{
  ℕ, ◌≡◌, refl, ap, ◌∙◌, arith, Bool, true, false, ◌&&◌, ◌||◌, List, [], ◌∷◌, ◌++◌, Option, none,
  some, ◌==◌, if◌then◌else◌, codes,
}
use open_sdbl.Lexer.Keyword.{Keyword}
use open_sdbl.Lexer.Keywords.{Spelling, keywords}
use open_sdbl.Lexer.Chars.{CharTables, byte_length}

-- `Iterator::eq`
unfoldable pub chars_eq : List ℕ → List ℕ → Bool
chars_eq [] [] = true
chars_eq (a ∷ as') (b ∷ bs) = a == b && chars_eq as' bs
chars_eq _ _ = false

pub chars_eq-true : (xs ys : List ℕ) → chars_eq xs ys ≡ true → xs ≡ ys
unfolding chars_eq
chars_eq-true [] [] h = refl
chars_eq-true [] (y ∷ ys) h = cc
chars_eq-true (x ∷ xs) [] h = cc
chars_eq-true (x ∷ xs) (y ∷ ys) h =
    let same : x ≡ y = ground arith in
    let rest : chars_eq xs ys ≡ true = ground arith in
    ap (λ a. a ∷ xs) same ∙ ap (λ l. y ∷ l) (chars_eq-true xs ys rest)

pub chars_eq_refl : (xs : List ℕ) → chars_eq xs xs ≡ true
unfolding chars_eq
chars_eq_refl [] = refl
chars_eq_refl (x ∷ xs) = let rest = chars_eq_refl xs in ground arith

module _ (tables : CharTables) where
  -- `chars().flat_map(char::to_uppercase)`
  unfoldable pub uppercase : List ℕ → List ℕ
  uppercase [] = []
  uppercase (c ∷ cs) = tables.to_uppercase c ++ uppercase cs

  unfoldable pub keyword_spelling_eq : List ℕ → List ℕ → Bool
  keyword_spelling_eq text spelling =
      byte_length text == byte_length spelling && chars_eq (uppercase text) (uppercase spelling)

  -- `find_map` over the rows
  unfoldable pub find_keyword : List ℕ → List Spelling → Option Keyword
  find_keyword text [] = none
  find_keyword text (s ∷ ss) =
      if keyword_spelling_eq text (codes s.russian) || keyword_spelling_eq text (codes s.english)
      then some s.keyword
      else find_keyword text ss

  unfoldable pub keyword : List ℕ → Option Keyword
  keyword text = find_keyword text keywords
