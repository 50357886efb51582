-- ===== src/Access/Comments.antt =====
-- The comments of restriction texts in src/access.rs.
use open_sdbl.Prelude.{
  ℕ, zero, suc, ◌+◌, ◌≡◌, refl, Bool, false, not, ◌&&◌, List, [], ◌∷◌, ◌++◌, ◌==◌, if◌then◌else◌,
  if_elim, replicate, subst, sym, ap, ◌∙◌, arith,
}
use open_sdbl.Lexer.Chars.{len_utf8, byte_length}

-- Where the loops stand: in the text, inside a string or not, or in a comment
pub data Mode : Type 0 where
  in_text : Bool → Mode
  in_comment : Mode

abbrev newline : ℕ
newline = 0x0a

unfoldable pub strip_from : Mode → List ℕ → List ℕ
strip_from mode [] = []
strip_from in_comment (c ∷ cs) =
    let more = strip_from in_comment cs in
    let text = strip_from (in_text false) cs in if c == newline then newline ∷ text else more
strip_from (in_text in_string) (c ∷ []) = c ∷ []
strip_from (in_text in_string) (c ∷ (d ∷ ds)) =
    let quoted = strip_from (in_text (not in_string)) (d ∷ ds) in
    let comment = strip_from in_comment ds in
    let more = strip_from (in_text in_string) (d ∷ ds) in
    if c == b'"'
    then c ∷ quoted
    else if c == b'/' && not in_string && d == b'/'
    then comment
    else c ∷ more

unfoldable pub strip_comments : List ℕ → List ℕ
strip_comments text = strip_from (in_text false) text

abbrev blanks : ℕ → List ℕ
blanks n = replicate n b' '

unfoldable pub blank_from : Mode → List ℕ → List ℕ
blank_from mode [] = []
blank_from in_comment (c ∷ cs) =
    let more = blank_from in_comment cs in
    let text = blank_from (in_text false) cs in
    if c == newline then newline ∷ text else (blanks (len_utf8 c) ++ more)
blank_from (in_text in_string) (c ∷ []) = c ∷ []
blank_from (in_text in_string) (c ∷ (d ∷ ds)) =
    let quoted = blank_from (in_text (not in_string)) (d ∷ ds) in
    let comment = blank_from in_comment ds in
    let more = blank_from (in_text in_string) (d ∷ ds) in
    if c == b'"'
    then c ∷ quoted
    else if c == b'/' && not in_string && d == b'/'
    then b' ' ∷ (b' ' ∷ comment)
    else c ∷ more

unfoldable pub blank_comments : List ℕ → List ℕ
blank_comments text = blank_from (in_text false) text

-- Character by character the same, or as many blanks as its bytes.
pub data Blanked : List ℕ → List ℕ → Type 0 where
  nothing : Blanked [] []
  same : {xs ys : List ℕ} (c : ℕ) → Blanked xs ys → Blanked (c ∷ xs) (c ∷ ys)
  blanked :
      {xs ys : List ℕ} (c : ℕ)
      → Blanked xs ys
      → Blanked (replicate (len_utf8 c) b' ' ++ xs) (c ∷ ys)

blank_from-Blanked : (mode : Mode) (text : List ℕ) → Blanked (blank_from mode text) text
unfolding blank_from
blank_from-Blanked mode [] = nothing
blank_from-Blanked in_comment (c ∷ cs) =
    if_elim (λ l. Blanked l (c ∷ cs)) (c == newline) _ _
      (λ e.
        let line : c ≡ newline = ground arith in
        subst (λ d. Blanked (newline ∷ blank_from (in_text false) cs) (d ∷ cs)) (sym line)
          (same newline (blank_from-Blanked (in_text false) cs)))
      (λ _. blanked c (blank_from-Blanked in_comment cs))
blank_from-Blanked (in_text in_string) (c ∷ []) = same c nothing
blank_from-Blanked (in_text in_string) (c ∷ (d ∷ ds)) =
    if_elim (λ l. Blanked l (c ∷ (d ∷ ds))) (c == b'"') _ _
      (λ _. same c (blank_from-Blanked (in_text (not in_string)) (d ∷ ds)))
      λ _.
        if_elim (λ l. Blanked l (c ∷ (d ∷ ds))) (c == b'/' && not in_string && d == b'/') _ _
          (λ e.
            let first : c ≡ b'/' = ground arith in
            let second : d ≡ b'/' = ground arith in
            subst (λ l. Blanked (b' ' ∷ (b' ' ∷ blank_from in_comment ds)) l)
              (ap (λ x. x ∷ (b'/' ∷ ds)) (sym first) ∙ ap (λ x. c ∷ (x ∷ ds)) (sym second))
              (blanked b'/' (blanked b'/' (blank_from-Blanked in_comment ds))))
          (λ _. same c (blank_from-Blanked (in_text in_string) (d ∷ ds)))

byte_length-blanks :
    (n : ℕ) (xs : List ℕ) → byte_length (replicate n b' ' ++ xs) ≡ n + byte_length xs
byte_length-blanks zero xs = omega arith
byte_length-blanks (suc n) xs = omega (arith, byte_length-blanks n xs)

Blanked-byte_length : {xs ys : List ℕ} → Blanked xs ys → byte_length xs ≡ byte_length ys
Blanked-byte_length nothing = refl
Blanked-byte_length (same c h) = omega (arith, Blanked-byte_length h)
Blanked-byte_length (blanked {xs} c h) =
    omega (arith, byte_length-blanks (len_utf8 c) xs, Blanked-byte_length h)

-- Blanking the comments of a text leaves each character or puts as many blanks in its place as it has
-- bytes, so the text keeps its length in bytes and every character that is left its offset.
pub blank_comments-Blanked :
    (text : List ℕ)
    → Blanked (blank_comments text) text × (byte_length (blank_comments text) ≡ byte_length text)
unfolding blank_comments
blank_comments-Blanked text =
    let all = blank_from-Blanked (in_text false) text in (all, Blanked-byte_length all)
