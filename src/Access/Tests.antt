-- ===== src/Access/Tests.antt =====
-- Restriction texts that src/access.rs reads.
use open_sdbl.Prelude.{
  ℕ, ◌≡◌, ◌≢◌, refl, Bool, true, false, List, [], ◌∷◌, ◌==◌, if◌then◌else◌, if_elim, codes,
}
use open_sdbl.Prelude.Result.{Result, ok, err, stuck}
use open_sdbl.Lexer.Chars.{byte_length}
use open_sdbl.Access.Error.{RestrictionError, display_restriction}
use open_sdbl.Access.Comments.{
  strip_from, strip_comments, blank_from, blank_comments, Blanked, blank_comments-Blanked,
}
use open_sdbl.Access.Directives.{if_directive, end_if, directive, process_pieces, evaluate_pieces}
use open_sdbl.Access.Tree.{
  Block, empty, plain, choice, one, more, nothing, otherwise, render, expand,
}
use open_sdbl.Access.Ends.{evaluate_pieces-ne-stuck}
use open_sdbl.Access.Chosen.{evaluate_pieces-expand}

strip_run : strip_comments (codes "a \"//\" // b\nc") ≡ codes "a \"//\" \nc"
unfolding strip_comments strip_from
strip_run = refl

blank_run : blank_comments (codes "a // Ж\nc") ≡ codes "a      \nc"
unfolding blank_comments blank_from
blank_run = refl

blank_comments-Blanked_example :
    Blanked (blank_comments (codes "a // b\nc")) (codes "a // b\nc")
    × (byte_length (blank_comments (codes "a // b\nc")) ≡ byte_length (codes "a // b\nc"))
blank_comments-Blanked_example = blank_comments-Blanked (codes "a // b\nc")

-- The condition "1" holds, "0" does not, and no other has a value.
abbrev digit_condition : List ℕ → Result RestrictionError Bool
digit_condition [] = err (RestrictionError.missing_parameter [])
digit_condition (c ∷ cs) =
    if c == b'1'
    then ok true
    else if c == b'0'
    then ok false
    else err (RestrictionError.missing_parameter (c ∷ cs))

-- Text, and a choice whose second condition holds and whose first body holds another choice
abbrev nested_block : Block
nested_block = plain (codes "x") (
    choice
      (more (codes "0") (choice (one (codes "p") empty) nothing empty)
        (more (codes "1") (plain (codes "y") empty) (one (codes "p") empty)))
      (otherwise (plain (codes "z") empty)) (plain (codes "w") empty))

choice_run : evaluate_pieces digit_condition (render (λ n. n) nested_block []) ≡ ok (codes "xyw")
unfolding evaluate_pieces process_pieces
choice_run = refl

unclosed_run :
    evaluate_pieces digit_condition (directive 0 end_if ∷ [])
    ≡ err (RestrictionError.syntax (codes "#КонецЕсли without #Если"))
unfolding evaluate_pieces process_pieces
unclosed_run = refl

display_run :
    display_restriction (RestrictionError.missing_parameter (codes "p"))
    ≡ codes "session parameter \"p\" has no value"
unfolding display_restriction
display_run = refl

evaluate_pieces-expand_example :
    evaluate_pieces digit_condition (render (λ n. n) nested_block [])
    ≡ expand digit_condition nested_block
evaluate_pieces-expand_example = evaluate_pieces-expand digit_condition (λ n. n) nested_block

digit_condition-ne-stuck : (condition : List ℕ) → digit_condition condition ≢ stuck
digit_condition-ne-stuck [] = λ p. cc
digit_condition-ne-stuck (c ∷ cs) =
    if_elim (λ r. r ≢ stuck) (c == b'1') _ _ (λ _ p. cc)
      λ _. if_elim (λ r. r ≢ stuck) (c == b'0') _ _ (λ _ p. cc) λ _ p. cc

evaluate_pieces-ne-stuck_example :
    evaluate_pieces digit_condition (directive 0 if_directive ∷ []) ≢ stuck
evaluate_pieces-ne-stuck_example =
    evaluate_pieces-ne-stuck digit_condition digit_condition-ne-stuck
      (directive 0 if_directive ∷ [])
