-- ===== src/Access/Tree.antt =====
-- The nested blocks of a restriction text, apart from how src/access.rs reads their pieces.
use open_sdbl.Prelude.{ℕ, suc, ◌+◌, Bool, List, [], ◌∷◌, ◌++◌, if◌then◌else◌, length}
use open_sdbl.Prelude.Result.{Result, ok, ◌>>=◌}
use open_sdbl.Access.Error.{RestrictionError}
use open_sdbl.Access.Directives.{
  if_directive, els_if, then_directive, else_directive, end_if, Directive, Piece, text_piece,
  directive,
}

mutual
  -- Texts and conditions in a row
  pub data Block : Type 0 where
    empty : Block
    plain : List ℕ → Block → Block
    choice : Alternatives → Otherwise → Block → Block

  -- A condition with its body, and those behind it
  pub data Alternatives : Type 0 where
    one : List ℕ → Block → Alternatives
    more : List ℕ → Block → Alternatives → Alternatives

  pub data Otherwise : Type 0 where
    nothing : Otherwise
    otherwise : Block → Otherwise

-- The pieces of a block in front of what follows. The offset of a piece may be any: it is given by
-- the number of pieces behind it.
module _ (position : ℕ → ℕ) where
  abbrev pub text_before : List ℕ → List Piece → List Piece
  text_before text rest = text_piece (position (length rest)) text ∷ rest

  abbrev pub directive_before : Directive → List Piece → List Piece
  directive_before which rest = directive (position (length rest)) which ∷ rest

  abbrev mutual
    pub render : Block → List Piece → List Piece
    render empty rest = rest
    render (plain text block) rest = text_before text (render block rest)
    render (choice branches other block) rest = directive_before if_directive (
        render_branches branches
          (render_otherwise other (directive_before end_if (render block rest))))

    pub render_branches : Alternatives → List Piece → List Piece
    render_branches (one condition body) rest =
        text_before condition (directive_before then_directive (render body rest))
    render_branches (more condition body branches) rest = text_before condition (
        directive_before then_directive
          (render body (directive_before els_if (render_branches branches rest))))

    pub render_otherwise : Otherwise → List Piece → List Piece
    render_otherwise nothing rest = rest
    render_otherwise (otherwise block) rest = directive_before else_directive (render block rest)

-- The text of a block: of each choice the body of the first condition that holds. No condition
-- behind it is read, nor those of a body that is not chosen.
module _ (evaluate : List ℕ → Result RestrictionError Bool) where
  abbrev mutual
    pub expand : Block → Result RestrictionError (List ℕ)
    expand empty = ok []
    expand (plain text block) = expand block >>= λ kept. ok (text ++ kept)
    expand (choice branches other block) = choose branches (expand_otherwise other) >>= λ chosen.
        expand block >>= λ kept. ok (chosen ++ kept)

    pub choose : Alternatives → Result RestrictionError (List ℕ) → Result RestrictionError (List ℕ)
    choose (one condition body) other =
        evaluate condition >>= λ holds. (if holds then expand body else other)
    choose (more condition body branches) other =
        evaluate condition >>= λ holds. (if holds then expand body else choose branches other)

    pub expand_otherwise : Otherwise → Result RestrictionError (List ℕ)
    expand_otherwise nothing = ok []
    expand_otherwise (otherwise block) = expand block

-- The rounds and calls that a block takes
abbrev mutual
  pub weight : Block → ℕ
  weight empty = 0
  weight (plain text block) = suc (weight block)
  weight (choice branches other block) = suc (weights branches + weight_of other + weight block)

  pub weights : Alternatives → ℕ
  weights (one condition body) = suc (weight body)
  weights (more condition body branches) = suc (weight body + weights branches)

  pub weight_of : Otherwise → ℕ
  weight_of nothing = 0
  weight_of (otherwise block) = suc (weight block)
