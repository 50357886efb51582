-- ===== src/Access/Skipped.antt =====
-- The blocks of a restriction text that the preprocessor of src/access.rs passes over.
use open_sdbl.Prelude.{
  ℕ, zero, suc, ◌+◌, ◌<◌, ◌≡◌, refl, ap, ◌∙◌, Bool, true, false, not, ◌&&◌, ◌||◌, List, [], ◌∷◌,
  if◌then◌else◌, arith,
}
use open_sdbl.Prelude.Result.{Result, ok, ◌>>=◌}
use open_sdbl.Access.Error.{RestrictionError}
use open_sdbl.Access.Directives.{
  if_directive, els_if, then_directive, else_directive, end_if, Piece, text_piece, directive,
  closed, behind_body, into_body, process_pieces, process_if,
}
use open_sdbl.Access.Tree.{
  Block, empty, plain, choice, Alternatives, one, more, Otherwise, nothing, otherwise,
  directive_before, render, render_branches, render_otherwise, weight, weights, weight_of,
}

-- Nothing that a block would read
unfoldable pub Stops : List Piece → Type 0
Stops [] = Unit
Stops (text_piece at text ∷ rest) = ⊥
Stops (directive at if_directive ∷ rest) = ⊥
Stops (directive at els_if ∷ rest) = Unit
Stops (directive at then_directive ∷ rest) = Unit
Stops (directive at else_directive ∷ rest) = Unit
Stops (directive at end_if ∷ rest) = Unit

module _ (evaluate : List ℕ → Result RestrictionError Bool) (position : ℕ → ℕ) where
  pub process-Stops :
      (fuel : ℕ) (emit : Bool) (rest : List Piece) (out : List ℕ)
      → Stops rest
      → process_pieces evaluate (suc fuel) emit rest out ≡ ok (rest, out)
  unfolding process_pieces Stops
  process-Stops fuel emit [] out h = refl
  process-Stops fuel emit (text_piece at text ∷ rest) out h = absurd h
  process-Stops fuel emit (directive at if_directive ∷ rest) out h = absurd h
  process-Stops fuel emit (directive at els_if ∷ rest) out h = refl
  process-Stops fuel emit (directive at then_directive ∷ rest) out h = refl
  process-Stops fuel emit (directive at else_directive ∷ rest) out h = refl
  process-Stops fuel emit (directive at end_if ∷ rest) out h = refl

  -- What closes a choice
  abbrev pub closing : Otherwise → List Piece → List Piece
  closing other rest = render_otherwise position other (directive_before position end_if rest)

  pub closing-Stops : (other : Otherwise) (rest : List Piece) → Stops (closing other rest)
  unfolding Stops
  closing-Stops nothing rest = tt
  closing-Stops (otherwise block) rest = tt

  or_false : (b : Bool) → (b || false) ≡ b
  or_false true = refl
  or_false false = refl

  pub skip_otherwise :
      (other : Otherwise) (fuel : ℕ) (emit taken : Bool) (rest : List Piece) (out : List ℕ)
      → ((block : Block) (rest : List Piece)
          → Stops rest
          → weight block < fuel
          → process_pieces evaluate fuel false (render position block rest) out ≡ ok (rest, out))
      → (emit && not taken) ≡ false
      → weight_of other < suc fuel
      → behind_body
          (process_pieces evaluate fuel)
          (process_if evaluate fuel)
          emit
          taken
          (closing other rest, out)
        ≡ ok (rest, out)
  unfolding Stops
  skip_otherwise nothing fuel emit taken rest out skips h enough = refl
  skip_otherwise (otherwise block) fuel emit taken rest out skips h enough =
      let end = directive_before position end_if rest in
      ap (λ b. process_pieces evaluate fuel b (render position block end) out >>= closed) h
      ∙ ap (λ r. r >>= closed) (skips block end tt (omega arith))

  -- A block that is not kept is passed over, whatever its conditions.
  mutual
    unfolding process_pieces process_if Stops

    pub skip_block :
        (block : Block) (fuel : ℕ) (rest : List Piece) (out : List ℕ)
        → Stops rest
        → weight block < fuel
        → process_pieces evaluate fuel false (render position block rest) out ≡ ok (rest, out)
    skip_block block zero rest out h enough = absurd (omega arith)
    skip_block empty (suc fuel) rest out h enough = process-Stops fuel false rest out h
    skip_block (plain text block) (suc fuel) rest out h enough =
        skip_block block fuel rest out h (omega arith)
    skip_block (choice branches other block) (suc fuel) rest out h enough =
        ap (λ r. r >>= λ (left, kept). process_pieces evaluate fuel false left kept)
          (skip_branches branches other fuel false false (render position block rest) out refl
            (omega arith))
        ∙ skip_block block fuel rest out h (omega arith)

    pub skip_branches :
        (branches : Alternatives) (other : Otherwise) (fuel : ℕ) (emit taken : Bool)
        (rest : List Piece) (out : List ℕ)
        → (emit && not taken) ≡ false
        → weights branches + weight_of other < fuel
        → process_if evaluate fuel emit taken
            (render_branches position branches (closing other rest))
            out
          ≡ ok (rest, out)
    skip_branches branches other zero emit taken rest out h enough = absurd (omega arith)
    skip_branches (one condition body) other (suc fuel) emit taken rest out h enough =
        let body_of = process_pieces evaluate fuel in
        let again = process_if evaluate fuel in
        ap
          (λ b.
            (if b then evaluate condition else ok false)
            >>= into_body body_of again emit taken (render position body (closing other rest)) out)
          h
        ∙ ap (λ r. r >>= behind_body body_of again emit (taken || false))
            (skip_block body fuel (closing other rest) out (closing-Stops other rest) (omega arith))
        ∙ ap (λ t. behind_body body_of again emit t (closing other rest, out)) (or_false taken)
        ∙ skip_otherwise other fuel emit taken rest out
            (λ block left. skip_block block fuel left out) h (omega arith)
    skip_branches (more condition body branches) other (suc fuel) emit taken rest out h enough =
        let body_of = process_pieces evaluate fuel in
        let again = process_if evaluate fuel in
        let next = render_branches position branches (closing other rest) in
        let behind = directive_before position els_if next in
        ap
          (λ b.
            (if b then evaluate condition else ok false)
            >>= into_body body_of again emit taken (render position body behind) out)
          h
        ∙ ap (λ r. r >>= behind_body body_of again emit (taken || false))
            (skip_block body fuel behind out tt (omega arith))
        ∙ ap (λ t. again emit t next out) (or_false taken)
        ∙ skip_branches branches other fuel emit taken rest out h (omega arith)
