-- ===== src/Access/Ends.antt =====
-- The preprocessor of src/access.rs ends on all pieces, however they nest.
use open_sdbl.Prelude.{
  ℕ, zero, suc, ◌+◌, ◌≤◌, ◌<◌, ◌≢◌, Bool, true, false, not, ◌&&◌, ◌||◌, List, [], ◌∷◌, ◌++◌,
  if◌then◌else◌, if_elim, length, arith,
}
use open_sdbl.Prelude.Result.{
  Result, ok, stuck, >>=-ne-stuck, Ensures, holds, rejected, Ensures->>=, Ensures-weaken,
  Ensures-intro, Ensures-ne-stuck,
}
use open_sdbl.Access.Error.{RestrictionError}
use open_sdbl.Access.Directives.{
  if_directive, els_if, then_directive, else_directive, end_if, Piece, text_piece, directive,
  Processed, Pieces, Branches, closed, behind_body, into_body, behind_condition, branch_holds,
  process_pieces, process_if, all_processed, evaluate_pieces,
}

-- No more is left than there was.
abbrev Left : List Piece → Processed → Type 0
Left pieces r = Ensures (λ (s : List Piece × List ℕ). length s.0 ≤ length pieces) r

unfoldable PiecesLeft : ℕ → Pieces → Type 0
PiecesLeft fuel run =
    (emit : Bool) (pieces : List Piece) (out : List ℕ)
    → length pieces < fuel
    → Left pieces (run emit pieces out)

unfoldable BranchesLeft : ℕ → Branches → Type 0
BranchesLeft fuel run =
    (emit taken : Bool) (pieces : List Piece) (out : List ℕ)
    → length pieces < fuel
    → Left pieces (run emit taken pieces out)

Left-weaken :
    (shorter longer : List Piece) {r : Processed}
    → length shorter ≤ length longer
    → Left shorter r
    → Left longer r
Left-weaken shorter longer h l = Ensures-weaken l (λ s k. omega arith)

closed-Left : (pieces : List Piece) (out : List ℕ) → Left pieces (closed (pieces, out))
closed-Left [] out = rejected
closed-Left (text_piece at text ∷ rest) out = rejected
closed-Left (directive at if_directive ∷ rest) out = rejected
closed-Left (directive at els_if ∷ rest) out = rejected
closed-Left (directive at then_directive ∷ rest) out = rejected
closed-Left (directive at else_directive ∷ rest) out = rejected
closed-Left (directive at end_if ∷ rest) out = holds (omega arith)

behind_body-Left :
    (fuel : ℕ) (body : Pieces) (again : Branches) (emit taken : Bool) (pieces : List Piece)
    (out : List ℕ)
    → PiecesLeft fuel body
    → BranchesLeft fuel again
    → length pieces < fuel
    → Left pieces (behind_body body again emit taken (pieces, out))
unfolding PiecesLeft BranchesLeft
behind_body-Left fuel body again emit taken [] out p b h = rejected
behind_body-Left fuel body again emit taken (text_piece at text ∷ rest) out p b h = rejected
behind_body-Left fuel body again emit taken (directive at if_directive ∷ rest) out p b h = rejected
behind_body-Left fuel body again emit taken (directive at els_if ∷ rest) out p b h =
    Left-weaken rest (directive at els_if ∷ rest) (omega arith)
      (b emit taken rest out (omega arith))
behind_body-Left fuel body again emit taken (directive at then_directive ∷ rest) out p b h =
    rejected
behind_body-Left fuel body again emit taken (directive at else_directive ∷ rest) out p b h =
    Ensures->>= (body (emit && not taken) rest out) closed
      (p (emit && not taken) rest out (omega arith))
      (λ (left, kept) _ shorter.
        Left-weaken left (directive at else_directive ∷ rest) (omega arith) (closed-Left left kept))
behind_body-Left fuel body again emit taken (directive at end_if ∷ rest) out p b h =
    holds (omega arith)

module _ (evaluate : List ℕ → Result RestrictionError Bool)
    (evaluates : (condition : List ℕ) → evaluate condition ≢ stuck) where
  branch_holds-ne-stuck :
      (emit taken : Bool) (condition : List ℕ) → branch_holds evaluate emit taken condition ≢ stuck
  branch_holds-ne-stuck emit taken condition =
      if_elim (λ r. r ≢ stuck) (emit && not taken) (evaluate condition) (ok false)
        (λ _. evaluates condition) (λ _ p. cc)

  behind_condition-Left :
      (fuel : ℕ) (body : Pieces) (again : Branches) (emit taken : Bool) (condition : List ℕ)
      (pieces : List Piece) (out : List ℕ)
      → PiecesLeft fuel body
      → BranchesLeft fuel again
      → length pieces < fuel
      → Left pieces (behind_condition evaluate body again emit taken condition pieces out)
  unfolding PiecesLeft
  behind_condition-Left fuel body again emit taken condition [] out p b h = rejected
  behind_condition-Left fuel body again emit taken condition (text_piece at text ∷ rest) out p b h =
      rejected
  behind_condition-Left fuel body again emit taken condition (directive at if_directive ∷ rest) out
        p b h =
      rejected
  behind_condition-Left fuel body again emit taken condition (directive at els_if ∷ rest) out p b
        h =
      rejected
  behind_condition-Left fuel body again emit taken condition (directive at else_directive ∷ rest)
        out p b h =
      rejected
  behind_condition-Left fuel body again emit taken condition (directive at end_if ∷ rest) out p b
        h =
      rejected
  behind_condition-Left fuel body again emit taken condition (directive at then_directive ∷ rest)
        out p b h =
      let decides = branch_holds evaluate emit taken condition in
      Ensures->>= decides (into_body body again emit taken rest out)
        (Ensures-intro {P = λ _. Unit {0}} decides (branch_holds-ne-stuck emit taken condition)
          (λ _ _. tt))
        λ kept _ _.
          Ensures->>= (body kept rest out) (behind_body body again emit (taken || kept))
            (p kept rest out (omega arith))
            λ (left, text) _ shorter.
              Left-weaken left (directive at then_directive ∷ rest) (omega arith)
                (behind_body-Left fuel body again emit (taken || kept) left text p b (omega arith))

  mutual
    unfolding process_pieces process_if PiecesLeft BranchesLeft

    process_pieces-Left : (fuel : ℕ) → PiecesLeft fuel (process_pieces evaluate fuel)
    process_pieces-Left zero emit pieces out h = absurd (omega arith)
    process_pieces-Left (suc fuel) emit [] out h = holds (omega arith)
    process_pieces-Left (suc fuel) emit (text_piece at text ∷ rest) out h =
        Left-weaken rest (text_piece at text ∷ rest) (omega arith)
          (process_pieces-Left fuel emit rest (if emit then out ++ text else out) (omega arith))
    process_pieces-Left (suc fuel) emit (directive at if_directive ∷ rest) out h =
        Ensures->>= (process_if evaluate fuel emit false rest out) _
          (process_if-Left fuel emit false rest out (omega arith))
          λ (left, kept) _ shorter.
            Left-weaken left (directive at if_directive ∷ rest) (omega arith)
              (process_pieces-Left fuel emit left kept (omega arith))
    process_pieces-Left (suc fuel) emit (directive at els_if ∷ rest) out h = holds (omega arith)
    process_pieces-Left (suc fuel) emit (directive at then_directive ∷ rest) out h =
        holds (omega arith)
    process_pieces-Left (suc fuel) emit (directive at else_directive ∷ rest) out h =
        holds (omega arith)
    process_pieces-Left (suc fuel) emit (directive at end_if ∷ rest) out h = holds (omega arith)

    process_if-Left : (fuel : ℕ) → BranchesLeft fuel (process_if evaluate fuel)
    process_if-Left zero emit taken pieces out h = absurd (omega arith)
    process_if-Left (suc fuel) emit taken [] out h = rejected
    process_if-Left (suc fuel) emit taken (directive at which ∷ rest) out h = rejected
    process_if-Left (suc fuel) emit taken (text_piece at condition ∷ rest) out h =
        Left-weaken rest (text_piece at condition ∷ rest) (omega arith) (
          behind_condition-Left fuel (process_pieces evaluate fuel) (process_if evaluate fuel) emit
            taken condition rest out (process_pieces-Left fuel) (process_if-Left fuel)
            (omega arith))

  all_processed-ne-stuck :
      (pieces : List Piece) (out : List ℕ) → all_processed (pieces, out) ≢ stuck
  all_processed-ne-stuck [] out p = cc
  all_processed-ne-stuck (piece ∷ pieces) out p = cc

  -- Where the evaluation of a condition always ends, the preprocessor ends on every list of pieces,
  -- well nested or not: with a text or with an error.
  pub evaluate_pieces-ne-stuck : (pieces : List Piece) → evaluate_pieces evaluate pieces ≢ stuck
  unfolding evaluate_pieces PiecesLeft
  evaluate_pieces-ne-stuck pieces =
      let run = process_pieces evaluate (length pieces + 1) true pieces [] in
      >>=-ne-stuck run all_processed
        (Ensures-ne-stuck (process_pieces-Left (length pieces + 1) true pieces [] (omega arith)))
        (λ (left, kept) _. all_processed-ne-stuck left kept)
