-- ===== src/Metadata/Container/Total.antt =====
-- The reader of src/metadata/container.rs ends on every container.
use open_sdbl.Prelude.{
  ℕ, zero, suc, ◌+◌, ◌-◌, ◌≤◌, ◌<◌, min, ◌≡◌, ◌≢◌, refl, List, Option, none, some, leb, ltb, ◌==◌,
  if_elim, length, arith,
}
use open_sdbl.Prelude.Result.{
  Result, ok, err, stuck, >>=-ne-stuck, Ensures, holds, rejected, Ensures->>=, Ensures-intro,
  Ensures-ok, Ensures-ne-stuck,
}
use open_sdbl.Metadata.Error.{MetadataError}
use open_sdbl.Metadata.Utf8.{from_utf8}
use open_sdbl.Metadata.Utf8.Total.{from_utf8-ne-stuck}
use open_sdbl.Metadata.Container.Blocks.{
  slice, number_or, from_hex, text_number, hex, BlockHeader, block_header, Walk, Turn, finished,
  onward, declared, taken, with_header, broken, turn, follow, walk, first_walk, document,
  block_limit,
}

number_or-ne-stuck : (o : Option ℕ) → number_or o ≢ stuck
number_or-ne-stuck none p = cc
number_or-ne-stuck (some n) p = cc

text_number-ne-stuck : (text : Result ℕ (List ℕ)) → text ≢ stuck → text_number text ≢ stuck
text_number-ne-stuck (ok text) h = number_or-ne-stuck (from_hex text)
text_number-ne-stuck (err offset) h = number_or-ne-stuck none
text_number-ne-stuck stuck h = absurd (h refl)

hex-ne-stuck : (header : List ℕ) (start : ℕ) → hex header start ≢ stuck
unfolding hex
hex-ne-stuck header start =
    text_number-ne-stuck (from_utf8 (slice header start 8))
      (from_utf8-ne-stuck (slice header start 8))

block_header-ne-stuck :
    (container : List ℕ) (offset minimum : ℕ) → block_header container offset minimum ≢ stuck
unfolding block_header
block_header-ne-stuck container offset minimum =
    let header = slice container offset 31 in
    >>=-ne-stuck (hex header 2) _ (hex-ne-stuck header 2) λ total _.
      >>=-ne-stuck (hex header 11) _ (hex-ne-stuck header 11)
        λ block _. >>=-ne-stuck (hex header 20) _ (hex-ne-stuck header 20) λ next _ p. cc

-- A round that goes on has counted one block more, within the limit.
unfoldable Counted : Walk → Turn → Type 0
Counted w (finished bytes) = Unit
Counted w (onward next) = (next.blocks ≡ suc w.blocks) × (suc w.blocks ≤ block_limit)

taken-Counted :
    (w : Walk) (h : BlockHeader) (total : ℕ) (out : List ℕ)
    → suc w.blocks ≤ block_limit
    → Ensures (Counted w) (taken w h total out)
unfolding Counted
taken-Counted w h total out few =
    if_elim (Ensures (Counted w)) (leb total (length out)) _ _ (λ _. holds tt)
      λ _.
        if_elim (Ensures (Counted w)) (h.next == 0x7fffffff) _ _ (λ _. rejected)
          λ _. holds (refl, few)

turn-Counted :
    (container : List ℕ) (minimum limit : ℕ) (w : Walk)
    → Ensures (Counted w) (turn container minimum limit w)
unfolding turn
turn-Counted container minimum limit w =
    let header = block_header container w.offset minimum in
    if_elim (Ensures (Counted w)) (broken container w) _ _ (λ _. rejected)
      λ sound.
        let few : suc w.blocks ≤ block_limit = ground arith in
        let P = Ensures (Counted w) in
        Ensures->>= header (λ h. with_header container limit w h (declared w.size h.total))
          (Ensures-intro {P = λ _. Unit {0}} header
            (block_header-ne-stuck container w.offset minimum) (λ _ _. tt))
          λ h _ _.
            let total = declared w.size h.total in
            if_elim P (ltb limit total) _ _ (λ _. rejected)
              λ _.
                if_elim P
                  (ltb (length container) (w.offset + 31 + min h.block (total - length w.out))) _ _
                  (λ _. rejected) λ _. taken-Counted w h total _ few

follow-ne-stuck :
    (again : Walk → Result MetadataError (List ℕ)) (w : Walk) (t : Turn)
    → Counted w t
    → ((next : Walk) → next.blocks ≡ suc w.blocks → suc w.blocks ≤ block_limit → again next ≢ stuck)
    → follow again t ≢ stuck
unfolding Counted
follow-ne-stuck again w (finished bytes) counted ih = λ p. cc
follow-ne-stuck again w (onward next) (e, few) ih = ih next e few

walk-ne-stuck :
    (fuel : ℕ) (container : List ℕ) (minimum limit : ℕ) (w : Walk)
    → block_limit < fuel + w.blocks
    → w.blocks ≤ block_limit
    → walk fuel container minimum limit w ≢ stuck
unfolding walk
walk-ne-stuck zero container minimum limit w enough few = absurd (omega arith)
walk-ne-stuck (suc fuel) container minimum limit w enough few =
    let again = walk fuel container minimum limit in
    let turned = turn-Counted container minimum limit w in
    >>=-ne-stuck (turn container minimum limit w) (follow again) (Ensures-ne-stuck turned) λ t e.
      follow-ne-stuck again w t (Ensures-ok turned e) λ next counted low.
        walk-ne-stuck fuel container minimum limit next (omega arith) (omega arith)

pub document-ne-stuck :
    (container : List ℕ) (offset minimum limit : ℕ)
    → document container offset minimum limit ≢ stuck
unfolding document
document-ne-stuck container offset minimum limit =
    walk-ne-stuck (suc block_limit) container minimum limit (first_walk offset) (omega arith)
      (omega arith)
