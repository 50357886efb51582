-- ===== src/Access/Chosen.antt =====
-- The preprocessor of src/access.rs keeps of each choice the body of the first condition that holds.
use open_sdbl.Prelude.{
  ℕ, zero, suc, ◌+◌, ◌≤◌, ◌<◌, ◌≡◌, refl, sym, ap, ◌∙◌, Bool, true, false, List, [], ◌++◌,
  if◌then◌else◌, length, append-nil, append_assoc, arith,
}
use open_sdbl.Prelude.Result.{Result, ok, ◌>>=◌, bind-Bool, bind-cases, bind-after, bind-ok}
use open_sdbl.Access.Error.{RestrictionError}
use open_sdbl.Access.Directives.{
  els_if, end_if, Piece, Processed, closed, behind_body, into_body, process_pieces, process_if,
  all_processed, evaluate_pieces,
}
use open_sdbl.Access.Tree.{
  Block, empty, plain, choice, Alternatives, one, more, Otherwise, nothing, otherwise,
  directive_before, render, render_branches, render_otherwise, expand, choose, expand_otherwise,
  weight, weights, weight_of,
}
use open_sdbl.Access.Skipped.{
  Stops, process-Stops, closing, closing-Stops, skip_block, skip_branches, skip_otherwise,
}

module _ (evaluate : List ℕ → Result RestrictionError Bool) (position : ℕ → ℕ) where
  -- A kept block gives its text behind what was kept before.
  abbrev Kept : List Piece → List ℕ → Result RestrictionError (List ℕ) → Processed
  Kept rest out m = m >>= λ kept. ok (rest, out ++ kept)

  run_otherwise :
      (other : Otherwise) (fuel : ℕ) (rest : List Piece) (out : List ℕ)
      → ((block : Block) (rest : List Piece)
          → Stops rest
          → weight block < fuel
          → process_pieces evaluate fuel true (render position block rest) out
            ≡ Kept rest out (expand evaluate block))
      → weight_of other < suc fuel
      → behind_body
          (process_pieces evaluate fuel)
          (process_if evaluate fuel)
          true
          false
          (closing evaluate position other rest, out)
        ≡ Kept rest out (expand_otherwise evaluate other)
  unfolding Stops
  run_otherwise nothing fuel rest out runs enough = ap (λ l. ok (rest, l)) (sym (append-nil out))
  run_otherwise (otherwise block) fuel rest out runs enough =
      let end = directive_before position end_if rest in
      ap (λ r. r >>= closed) (runs block end tt (omega arith))
      ∙ bind-after (expand evaluate block) (λ kept. (end, out ++ kept)) closed
          (λ kept. ok (rest, out ++ kept)) (λ kept. refl)

  mutual
    unfolding process_pieces process_if Stops

    run_block :
        (block : Block) (fuel : ℕ) (rest : List Piece) (out : List ℕ)
        → Stops rest
        → weight block < fuel
        → process_pieces evaluate fuel true (render position block rest) out
          ≡ Kept rest out (expand evaluate block)
    run_block block zero rest out h enough = absurd (omega arith)
    run_block empty (suc fuel) rest out h enough =
        process-Stops evaluate position fuel true rest out h
        ∙ ap (λ l. ok (rest, l)) (sym (append-nil out))
    run_block (plain text block) (suc fuel) rest out h enough =
        run_block block fuel rest (out ++ text) h (omega arith)
        ∙ sym (
            bind-after (expand evaluate block) (λ kept. text ++ kept)
              (λ kept. ok (rest, out ++ kept)) (λ kept. ok (rest, out ++ text ++ kept))
              (λ kept. ap (λ l. ok (rest, l)) (sym (append_assoc out text kept))))
    run_block (choice branches other block) (suc fuel) rest out h enough =
        let left = render position block rest in
        let goes : List Piece × List ℕ → Processed =
          λ (pieces, kept). process_pieces evaluate fuel true pieces kept in
        let chosen = choose evaluate branches (expand_otherwise evaluate other) in
        let more_kept = expand evaluate block in
        ap (λ r. r >>= goes) (run_branches branches other fuel left out (omega arith))
        ∙ bind-after chosen (λ kept. (left, out ++ kept)) goes
            (λ kept. Kept rest (out ++ kept) more_kept)
            (λ kept. run_block block fuel rest (out ++ kept) h (omega arith))
        ∙ bind-cases chosen (λ kept. Kept rest (out ++ kept) more_kept)
            (λ kept. more_kept >>= λ last. ok (kept ++ last)) (λ kept. ok (rest, out ++ kept))
            (λ kept. sym (
              bind-after more_kept (λ last. kept ++ last) (λ last. ok (rest, out ++ last))
                (λ last. ok (rest, out ++ kept ++ last))
                (λ last. ap (λ l. ok (rest, l)) (sym (append_assoc out kept last)))))

    run_branches :
        (branches : Alternatives) (other : Otherwise) (fuel : ℕ) (rest : List Piece) (out : List ℕ)
        → weights branches + weight_of other < fuel
        → process_if evaluate fuel true false
            (render_branches position branches (closing evaluate position other rest))
            out
          ≡ Kept rest out (choose evaluate branches (expand_otherwise evaluate other))
    run_branches branches other zero rest out enough = absurd (omega arith)
    run_branches (one condition body) other (suc fuel) rest out enough =
        let body_of = process_pieces evaluate fuel in
        let again = process_if evaluate fuel in
        let end = closing evaluate position other rest in
        bind-Bool (evaluate condition)
          (into_body body_of again true false (render position body end) out)
          (λ holds. if holds then expand evaluate body else expand_otherwise evaluate other)
          (λ kept. ok (rest, out ++ kept))
          (ap (λ r. r >>= behind_body body_of again true true)
              (run_block body fuel end out (closing-Stops evaluate position other rest)
                (omega arith))
            ∙ bind-after (expand evaluate body) (λ kept. (end, out ++ kept))
                (behind_body body_of again true true) (λ kept. ok (rest, out ++ kept))
                (λ kept.
                  skip_otherwise evaluate position other fuel true true rest (out ++ kept)
                    (λ block left. skip_block evaluate position block fuel left (out ++ kept)) refl
                    (omega arith)))
          (ap (λ r. r >>= behind_body body_of again true false)
              (skip_block evaluate position body fuel end out
                (closing-Stops evaluate position other rest) (omega arith))
            ∙ run_otherwise other fuel rest out (λ block left. run_block block fuel left out)
                (omega arith))
    run_branches (more condition body branches) other (suc fuel) rest out enough =
        let body_of = process_pieces evaluate fuel in
        let again = process_if evaluate fuel in
        let next = render_branches position branches (closing evaluate position other rest) in
        let behind = directive_before position els_if next in
        let last = expand_otherwise evaluate other in
        bind-Bool (evaluate condition)
          (into_body body_of again true false (render position body behind) out)
          (λ holds. if holds then expand evaluate body else choose evaluate branches last)
          (λ kept. ok (rest, out ++ kept))
          (ap (λ r. r >>= behind_body body_of again true true)
              (run_block body fuel behind out tt (omega arith))
            ∙ bind-after (expand evaluate body) (λ kept. (behind, out ++ kept))
                (behind_body body_of again true true) (λ kept. ok (rest, out ++ kept))
                (λ kept.
                  skip_branches evaluate position branches other fuel true true rest (out ++ kept)
                    refl (omega arith)))
          (ap (λ r. r >>= behind_body body_of again true false)
              (skip_block evaluate position body fuel behind out tt (omega arith))
            ∙ run_branches branches other fuel rest out (omega arith))

mutual
  weight-render :
      (position : ℕ → ℕ) (block : Block) (rest : List Piece)
      → weight block + length rest ≤ length (render position block rest)
  weight-render position empty rest = omega arith
  weight-render position (plain text block) rest = omega (arith, weight-render position block rest)
  weight-render position (choice branches other block) rest =
      let tail = render position block rest in
      let end = directive_before position end_if tail in
      omega (
        arith,
        weight-render position block rest,
        weight_of-render_otherwise position other end,
        weights-render_branches position branches (render_otherwise position other end),
      )

  weights-render_branches :
      (position : ℕ → ℕ) (branches : Alternatives) (rest : List Piece)
      → weights branches + length rest ≤ length (render_branches position branches rest)
  weights-render_branches position (one condition body) rest =
      omega (arith, weight-render position body rest)
  weights-render_branches position (more condition body branches) rest =
      let next = render_branches position branches rest in
      omega (
        arith,
        weight-render position body (directive_before position els_if next),
        weights-render_branches position branches rest,
      )

  weight_of-render_otherwise :
      (position : ℕ → ℕ) (other : Otherwise) (rest : List Piece)
      → weight_of other + length rest ≤ length (render_otherwise position other rest)
  weight_of-render_otherwise position nothing rest = omega arith
  weight_of-render_otherwise position (otherwise block) rest =
      omega (arith, weight-render position block rest)

-- The preprocessor gives of well-nested pieces, at any offsets, what the blocks stand for: the text,
-- and of each choice the body of the first condition that holds, or else that behind `#Иначе`. No other
-- condition is read, so an error can only come from a condition that decides.
pub evaluate_pieces-expand :
    (evaluate : List ℕ → Result RestrictionError Bool) (position : ℕ → ℕ) (block : Block)
    → evaluate_pieces evaluate (render position block []) ≡ expand evaluate block
unfolding evaluate_pieces Stops
evaluate_pieces-expand evaluate position block =
    let pieces = render position block [] in
    let fits = weight-render position block [] in
    ap (λ r. r >>= all_processed)
      (run_block evaluate position block (length pieces + 1) [] [] tt (omega arith))
    ∙ bind-after (expand evaluate block) (λ kept. ([], kept)) all_processed ok (λ kept. refl)
    ∙ bind-ok (expand evaluate block)
