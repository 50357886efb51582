-- ===== src/Access/Directives.antt =====
-- The preprocessor of src/access.rs, from the pieces of a text on. `evaluate` says whether the
-- expression of a directive holds.
use open_sdbl.Prelude.{
  ℕ, zero, suc, ◌+◌, Bool, true, false, not, ◌&&◌, ◌||◌, List, [], ◌∷◌, ◌++◌, if◌then◌else◌, length,
}
use open_sdbl.Prelude.Result.{Result, ok, err, stuck, ◌>>=◌}
use open_sdbl.Access.Error.{RestrictionError, syntax_error}

pub data Directive : Type 0 where
  if_directive els_if then_directive else_directive end_if : Directive

-- A piece of a text and the byte offset at which it starts
pub data Piece : Type 0 where
  text_piece : ℕ → List ℕ → Piece
  directive : ℕ → Directive → Piece

-- What is left of the pieces, and the text that was kept
abbrev pub Processed : Type 0
Processed = Result RestrictionError (List Piece × List ℕ)

abbrev pub Pieces : Type 0
Pieces = Bool → List Piece → List ℕ → Processed

abbrev pub Branches : Type 0
Branches = Bool → Bool → List Piece → List ℕ → Processed

-- A round of the loop of `process_pieces`: `inside` is `process_if`, and a directive that closes
-- the enclosing block is left.
abbrev pub pieces_round : Pieces → Branches → Pieces
pieces_round again inside emit [] out = ok ([], out)
pieces_round again inside emit (text_piece at text ∷ rest) out =
    again emit rest (if emit then out ++ text else out)
pieces_round again inside emit (directive at if_directive ∷ rest) out =
    inside emit false rest out >>= λ (left, kept). again emit left kept
pieces_round again inside emit (directive at els_if ∷ rest) out =
    ok (directive at els_if ∷ rest, out)
pieces_round again inside emit (directive at then_directive ∷ rest) out =
    ok (directive at then_directive ∷ rest, out)
pieces_round again inside emit (directive at else_directive ∷ rest) out =
    ok (directive at else_directive ∷ rest, out)
pieces_round again inside emit (directive at end_if ∷ rest) out =
    ok (directive at end_if ∷ rest, out)

abbrev pub closed : List Piece × List ℕ → Processed
closed (directive at end_if ∷ rest, out) = ok (rest, out)
closed (rest, out) = err (syntax_error "#Иначе without #КонецЕсли")

-- The `match` behind the body of a branch
abbrev pub behind_body : Pieces → Branches → Bool → Bool → List Piece × List ℕ → Processed
behind_body body again emit taken (directive at els_if ∷ rest, out) = again emit taken rest out
behind_body body again emit taken (directive at else_directive ∷ rest, out) =
    body (emit && not taken) rest out >>= closed
behind_body body again emit taken (directive at end_if ∷ rest, out) = ok (rest, out)
behind_body body again emit taken (rest, out) = err (syntax_error "#Если without #КонецЕсли")

abbrev pub into_body : Pieces → Branches → Bool → Bool → List Piece → List ℕ → Bool → Processed
into_body body again emit taken rest out holds =
    body holds rest out >>= behind_body body again emit (taken || holds)

abbrev pub all_processed : List Piece × List ℕ → Result RestrictionError (List ℕ)
all_processed ([], out) = ok out
all_processed (piece ∷ pieces, out) = err (syntax_error "#КонецЕсли without #Если")

module _ (evaluate : List ℕ → Result RestrictionError Bool) where
  -- `emit && !taken && evaluate_expression(condition)?`
  abbrev pub branch_holds : Bool → Bool → List ℕ → Result RestrictionError Bool
  branch_holds emit taken condition = if emit && not taken then evaluate condition else ok false

  abbrev pub behind_condition :
      Pieces → Branches → Bool → Bool → List ℕ → List Piece → List ℕ → Processed
  behind_condition body again emit taken condition (directive at then_directive ∷ rest) out =
      branch_holds emit taken condition >>= into_body body again emit taken rest out
  behind_condition body again emit taken condition rest out =
      err (syntax_error "#Если without #Тогда")

  -- A round of the loop of `process_if`
  abbrev pub branch_round : Pieces → Branches → Branches
  branch_round body again emit taken (text_piece at condition ∷ rest) out =
      behind_condition body again emit taken condition rest out
  branch_round body again emit taken rest out = err (syntax_error "#Если without a condition")

  -- A round and a nested call pass over a piece at least.
  unfoldable mutual
    pub process_pieces : ℕ → Pieces
    process_pieces zero emit pieces out = stuck
    process_pieces (suc fuel) emit pieces out =
        pieces_round (process_pieces fuel) (process_if fuel) emit pieces out

    pub process_if : ℕ → Branches
    process_if zero emit taken pieces out = stuck
    process_if (suc fuel) emit taken pieces out =
        branch_round (process_pieces fuel) (process_if fuel) emit taken pieces out

  -- `evaluate_directives` behind `split_directives`
  unfoldable pub evaluate_pieces : List Piece → Result RestrictionError (List ℕ)
  evaluate_pieces pieces = process_pieces (length pieces + 1) true pieces [] >>= all_processed
