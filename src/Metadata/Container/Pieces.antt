-- ===== src/Metadata/Container/Pieces.antt =====
-- The chain of blocks that `document` of src/metadata/container.rs follows.
use open_sdbl.Prelude.{
  ℕ, zero, suc, ◌+◌, ◌-◌, ◌≤◌, ◌<◌, min, ◌≡◌, ◌⊎◌, refl, sym, ap, subst, ◌∙◌, List, [], ◌∷◌, ◌++◌,
  Option, none, some, leb, ltb, ◌==◌, if◌then◌else◌, if_elim, inl, inr, length, take, drop,
  length-append, length-take, length-drop, append_assoc, arith,
}
use open_sdbl.Prelude.Result.{Result, ok, err, ◌>>=◌, >>=-eq-ok}
use open_sdbl.Metadata.Error.{MetadataError}
use open_sdbl.Metadata.Container.Blocks.{
  malformed, slice, BlockHeader, block_header, Walk, Turn, finished, onward, declared, taken,
  with_header, broken, turn, follow, walk, first_walk, document, block_limit,
}

-- The bytes of the last `remaining` bytes of a document, of which a block at `offset` holds the
-- first: every block lies in the container, and all but the last are shorter than what remains.
pub data Pieces (container : List ℕ) (minimum : ℕ) : ℕ → ℕ → List ℕ → Type 0 where
  last :
      {offset remaining : ℕ} {h : BlockHeader}
      → block_header container offset minimum ≡ ok h
      → remaining ≤ h.block
      → offset + 31 + remaining ≤ length container
      → Pieces container minimum offset remaining (slice container (offset + 31) remaining)
  more :
      {offset remaining : ℕ} {h : BlockHeader} {tail : List ℕ}
      → block_header container offset minimum ≡ ok h
      → h.block < remaining
      → offset + 31 + h.block ≤ length container
      → Pieces container minimum h.next (remaining - h.block) tail
      → Pieces container minimum offset remaining (slice container (offset + 31) h.block ++ tail)

pub length-slice :
    (bytes : List ℕ) (start count : ℕ)
    → start + count ≤ length bytes
    → length (slice bytes start count) ≡ count
length-slice bytes start count h =
    omega (arith, length-take count (drop start bytes), length-drop start bytes)

pub Pieces-length :
    {container : List ℕ} {minimum offset remaining : ℕ} {bytes : List ℕ}
    → Pieces container minimum offset remaining bytes
    → length bytes ≡ remaining
Pieces-length {container} (last {offset} {remaining} {h} e k fits) =
    length-slice container (offset + 31) remaining fits
Pieces-length {container} (more {offset} {remaining} {h} {tail} e k fits rest) = omega (
  arith,
  length-append (slice container (offset + 31) h.block) tail,
  length-slice container (offset + 31) h.block fits,
  Pieces-length rest,
)

take_all {ℓ} : {A : Type ℓ} (n : ℕ) (xs : List A) → length xs ≤ n → take n xs ≡ xs
take_all zero [] h = refl
take_all (suc n) [] h = refl
take_all zero (x ∷ xs) h = absurd (omega arith)
take_all (suc n) (x ∷ xs) h = ap (λ l. x ∷ l) (take_all n xs (omega arith))

module _ (container : List ℕ) (limit : ℕ) (w : Walk) where
  turn-eq-ok :
      (minimum : ℕ) (t : Turn)
      → turn container minimum limit w ≡ ok t
      → (h : BlockHeader) × (block_header container w.offset minimum ≡ ok h)
        × (with_header container limit w h (declared w.size h.total) ≡ ok t)
  unfolding turn
  turn-eq-ok minimum t =
      let header = block_header container w.offset minimum in
      let continue : BlockHeader → Result MetadataError Turn =
        λ h. with_header container limit w h (declared w.size h.total) in
      if_elim (λ r. r ≡ ok t → (h : BlockHeader) × (header ≡ ok h) × (continue h ≡ ok t))
        (broken container w) (err (malformed "цепочка блоков повреждена")) (header >>= continue)
        (λ _ e. cc) (λ _ e. >>=-eq-ok header continue e)

  abbrev block_end : BlockHeader → ℕ → List ℕ
  block_end h total = slice container (w.offset + 31) (min h.block (total - length w.out))

  with_header-eq-ok :
      (h : BlockHeader) (total : ℕ) (t : Turn)
      → with_header container limit w h total ≡ ok t
      → (total ≤ limit)
        × (w.offset + 31 + min h.block (total - length w.out) ≤ length container)
        × (taken w h total (w.out ++ block_end h total) ≡ ok t)
  with_header-eq-ok h total t =
      let count = min h.block (total - length w.out) in
      let start = w.offset + 31 in
      let rest = taken w h total (w.out ++ block_end h total) in
      let out_of_range = err (malformed "блок выходит за контейнер") in
      let P = (total ≤ limit) × (start + count ≤ length container) × (rest ≡ ok t) in
      if_elim (λ r. r ≡ ok t → P) (ltb limit total)
        (err (malformed "документ контейнера превысил предел байтов"))
        (if ltb (length container) (start + count) then out_of_range else rest) (λ _ e. cc)
        (λ low.
          if_elim (λ r. r ≡ ok t → P) (ltb (length container) (start + count)) out_of_range rest
            (λ _ e. cc) (λ fits e. (ground arith, ground arith, e)))

  abbrev next_walk : BlockHeader → ℕ → List ℕ → Walk
  next_walk h total out = record {
    offset = h.next;
    out = out;
    size = some total;
    blocks = suc w.blocks;
    visited = w.offset ∷ w.visited;
  }

  Taken : BlockHeader → ℕ → List ℕ → Turn → Type 0
  Taken h total out t =
      ((t ≡ finished (take total out)) × (total ≤ length out))
      ⊎ ((t ≡ onward (next_walk h total out)) × (length out < total))

  taken-eq-ok :
      (h : BlockHeader) (total : ℕ) (out : List ℕ) (t : Turn)
      → taken w h total out ≡ ok t
      → Taken h total out t
  unfolding Taken
  taken-eq-ok h total out t =
      let goes = onward (next_walk h total out) in
      let cut : Result MetadataError Turn = err (malformed "цепочка блоков оборвана") in
      if_elim (λ r. r ≡ ok t → Taken h total out t) (leb total (length out))
        (ok (finished (take total out))) (if h.next == 0x7fffffff then cut else ok goes)
        (λ done e. inl (cc, ground arith))
        (λ short.
          if_elim (λ r. r ≡ ok t → Taken h total out t) (h.next == 0x7fffffff) cut (ok goes)
            (λ _ e. cc) (λ _ e. inr (cc, ground arith)))

-- Nothing is read before the first header, and less than the whole behind it.
abbrev Sized : Option ℕ → List ℕ → Type 0
Sized none out = length out ≡ 0
Sized (some total) out = length out < total

Sized-le :
    (size : Option ℕ) (out : List ℕ) (total : ℕ) → Sized size out → length out ≤ declared size total
Sized-le none out total h = omega arith
Sized-le (some size) out total h = omega arith

-- What a run that gives a document says of it.
record Assembled (container : List ℕ) (minimum limit : ℕ) (w : Walk) (bytes : List ℕ) : Type 0 where
  header : BlockHeader
  tail : List ℕ
  read : block_header container w.offset minimum ≡ ok header
  pieces : Pieces container minimum w.offset (declared w.size header.total - length w.out) tail
  limited : declared w.size header.total ≤ limit
  whole : bytes ≡ w.out ++ tail

Assembled-last :
    (container : List ℕ) (minimum limit : ℕ) (w : Walk) (h : BlockHeader) (total : ℕ)
    → total ≡ declared w.size h.total
    → length w.out ≤ total
    → block_header container w.offset minimum ≡ ok h
    → total ≤ limit
    → w.offset + 31 + min h.block (total - length w.out) ≤ length container
    → total ≤ length (w.out ++ block_end container limit w h total)
    → Assembled container minimum limit w
        (take total (w.out ++ block_end container limit w h total))
Assembled-last container minimum limit w h total declares sized e low fits done =
    let count = min h.block (total - length w.out) in
    let block = block_end container limit w h total in
    let size = length-append w.out block in
    let block_size = length-slice container (w.offset + 31) count fits in
    let all : count ≡ total - length w.out = omega arith in
    record {
      header = h;
      tail = block;
      read = e;
      pieces =
          subst (λ n. Pieces container minimum w.offset (n - length w.out) block) declares
            (subst
              (λ n.
                Pieces container minimum w.offset (total - length w.out)
                  (slice container (w.offset + 31) n))
              (sym all) (last e (omega arith) (omega arith)));
      limited = subst (λ n. n ≤ limit) declares low;
      whole = take_all total (w.out ++ block) (omega arith);
    }

Assembled-onward :
    (container : List ℕ) (minimum limit : ℕ) (w : Walk) (h : BlockHeader) (total : ℕ)
    (bytes : List ℕ)
    → total ≡ declared w.size h.total
    → length w.out ≤ total
    → block_header container w.offset minimum ≡ ok h
    → w.offset + 31 + min h.block (total - length w.out) ≤ length container
    → length (w.out ++ block_end container limit w h total) < total
    → Assembled container minimum limit
        (next_walk container limit w h total (w.out ++ block_end container limit w h total))
        bytes
    → Assembled container minimum limit w bytes
Assembled-onward container minimum limit w h total bytes declares sized e fits short rest =
    let count = min h.block (total - length w.out) in
    let block = block_end container limit w h total in
    let size = length-append w.out block in
    let block_size = length-slice container (w.offset + 31) count fits in
    let full : count ≡ h.block = omega arith in
    let left : total - length (w.out ++ block) ≡ total - length w.out - h.block = omega arith in
    record {
      header = h;
      tail = slice container (w.offset + 31) h.block ++ rest.tail;
      read = e;
      pieces =
          subst
            (λ n.
              Pieces container minimum w.offset (n - length w.out)
                (slice container (w.offset + 31) h.block ++ rest.tail))
            declares
            (more e (omega arith) (omega arith)
              (subst (λ n. Pieces container minimum h.next n rest.tail) left rest.pieces));
      limited = subst (λ n. n ≤ limit) declares rest.limited;
      whole =
          rest.whole
          ∙ append_assoc w.out block rest.tail
          ∙ ap (λ n. w.out ++ (slice container (w.offset + 31) n ++ rest.tail)) full;
    }

module _ (container : List ℕ) (minimum limit : ℕ) where
  follow-Assembled :
      (again : Walk → Result MetadataError (List ℕ)) (w : Walk) (h : BlockHeader) (total : ℕ)
      (t : Turn) (bytes : List ℕ)
      → ((next : Walk) (bytes : List ℕ)
          → Sized next.size next.out
          → again next ≡ ok bytes
          → Assembled container minimum limit next bytes)
      → total ≡ declared w.size h.total
      → length w.out ≤ total
      → block_header container w.offset minimum ≡ ok h
      → (total ≤ limit)
        × (w.offset + 31 + min h.block (total - length w.out) ≤ length container)
        × (taken w h total (w.out ++ block_end container limit w h total) ≡ ok t)
      → follow again t ≡ ok bytes
      → Assembled container minimum limit w bytes
  unfolding Taken
  follow-Assembled again w h total t bytes ih declares small read (low, fits, took) goes =
      let out = w.out ++ block_end container limit w h total in
      elim (taken-eq-ok container limit w h total out t took) [
        | inl (ends, done) ↦
            let same : take total out ≡ bytes = cc in
            subst (Assembled container minimum limit w) same
              (Assembled-last container minimum limit w h total declares small read low fits done)
        | inr (next, short) ↦
            let goes' : again (next_walk container limit w h total out) ≡ ok bytes =
              subst (λ u. follow again u ≡ ok bytes) next goes in
            Assembled-onward container minimum limit w h total bytes declares small read fits short
              (ih (next_walk container limit w h total out) bytes short goes')
      ]

  walk-Assembled :
      (fuel : ℕ) (w : Walk) (bytes : List ℕ)
      → Sized w.size w.out
      → walk fuel container minimum limit w ≡ ok bytes
      → Assembled container minimum limit w bytes
  unfolding walk
  walk-Assembled zero w bytes sized e = cc
  walk-Assembled (suc fuel) w bytes sized e =
      let again = walk fuel container minimum limit in
      let (t, turned, goes) = >>=-eq-ok (turn container minimum limit w) (follow again) e in
      let (h, read, behind) = turn-eq-ok container limit w minimum t turned in
      follow-Assembled again w h (declared w.size h.total) t bytes (walk-Assembled fuel) refl
        (Sized-le w.size w.out h.total sized) read
        (with_header-eq-ok container limit w h (declared w.size h.total) t behind) goes

  -- A document has as many bytes as the header of its first block declares, which are no more than
  -- the limit: those of a chain of blocks, each inside the container, where the last block is cut
  -- to what is left.
  pub document-Pieces :
      (offset : ℕ) (bytes : List ℕ)
      → document container offset minimum limit ≡ ok bytes
      → (h : BlockHeader) × (block_header container offset minimum ≡ ok h)
        × Pieces container minimum offset h.total bytes
        × (length bytes ≡ h.total)
        × (length bytes ≤ limit)
  unfolding document
  document-Pieces offset bytes e =
      let made = walk-Assembled (suc block_limit) (first_walk offset) bytes refl e in
      let all : made.header.total - 0 ≡ made.header.total = omega arith in
      let pieces =
        subst (Pieces container minimum offset made.header.total) (sym made.whole)
          (subst (λ n. Pieces container minimum offset n made.tail) all made.pieces) in
      let size = Pieces-length pieces in
      let limited = made.limited in (made.header, made.read, pieces, size, omega arith)
