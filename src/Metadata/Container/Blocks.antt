-- ===== src/Metadata/Container/Blocks.antt =====
-- `document` of src/metadata/container.rs: a document is a chain of blocks, each behind a header of 31
-- bytes.
use open_sdbl.Prelude.{
  ℕ, zero, suc, ◌+◌, ◌-◌, ◌*◌, min, max, Bool, false, ◌&&◌, ◌||◌, List, [], ◌∷◌, ◌++◌, Option, none,
  some, String, leb, ltb, ◌==◌, if◌then◌else◌, length, take, drop,
}
use open_sdbl.Prelude.Result.{Result, ok, err, stuck, ◌>>=◌}
use open_sdbl.Metadata.Error.{MetadataError, serialization, literal, new_error}
use open_sdbl.Metadata.Utf8.{from_utf8}

abbrev pub malformed : String → MetadataError
malformed message = new_error serialization (literal message)

-- `from_le_bytes`
abbrev pub le_bytes : List ℕ → ℕ
le_bytes [] = 0
le_bytes (b ∷ bs) = b + 256 * le_bytes bs

abbrev pub slice : List ℕ → ℕ → ℕ → List ℕ
slice bytes start count = take count (drop start bytes)

abbrev hex_digit : ℕ → Option ℕ
hex_digit c =
    if leb b'0' c && leb c b'9'
    then some (c - b'0')
    else if leb b'a' c && leb c b'f'
    then some (c - b'a' + 10)
    else if leb b'A' c && leb c b'F'
    then some (c - b'A' + 10)
    else none

abbrev hex_digits : ℕ → List ℕ → Option ℕ
hex_digits n [] = some n
hex_digits n (c ∷ cs) = elim (hex_digit c) [ none ↦ none | some d ↦ hex_digits (n * 16 + d) cs ]

abbrev some_digits : List ℕ → Option ℕ
some_digits [] = none
some_digits (c ∷ cs) = hex_digits 0 (c ∷ cs)

-- `usize::from_str_radix(s, 16)`, which takes a plus sign; the eight digits of a field fit.
unfoldable pub from_hex : List ℕ → Option ℕ
from_hex [] = none
from_hex (c ∷ cs) = if c == b'+' then some_digits cs else some_digits (c ∷ cs)

abbrev pub number_or : Option ℕ → Result MetadataError ℕ
number_or none = err (malformed "неверный заголовок блока")
number_or (some n) = ok n

abbrev pub text_number : Result ℕ (List ℕ) → Result MetadataError ℕ
text_number (ok text) = number_or (from_hex text)
text_number (err offset) = number_or none
text_number stuck = stuck

-- `hex` on eight bytes of the header
unfoldable pub hex : List ℕ → ℕ → Result MetadataError ℕ
hex header start = text_number (from_utf8 (slice header start 8))

pub record BlockHeader : Type 0 where
  pub total : ℕ
  pub block : ℕ
  pub next : ℕ

unfoldable pub block_header : List ℕ → ℕ → ℕ → Result MetadataError BlockHeader
block_header container offset minimum =
    let header = slice container offset 31 in
    hex header 2 >>= λ total. hex header 11 >>= λ block.
    hex header 20 >>= λ next. ok (record { total = total; block = max block minimum; next = next })

-- The variables of the loop
pub record Walk : Type 0 where
  pub offset : ℕ
  pub out : List ℕ
  pub size : Option ℕ
  pub blocks : ℕ
  pub visited : List ℕ

pub data Turn : Type 0 where
  finished : List ℕ → Turn
  onward : Walk → Turn

abbrev pub contains : List ℕ → ℕ → Bool
contains [] n = false
contains (m ∷ ms) n = m == n || contains ms n

abbrev pub block_limit : ℕ
block_limit = 1000000

-- `get_or_insert`
abbrev pub declared : Option ℕ → ℕ → ℕ
declared none total = total
declared (some size) total = size

abbrev chain_end : ℕ
chain_end = 0x7fffffff

-- Behind the slice of a block
abbrev pub taken : Walk → BlockHeader → ℕ → List ℕ → Result MetadataError Turn
taken w h total out =
    if leb total (length out)
    then ok (finished (take total out))
    else if h.next == chain_end
    then err (malformed "цепочка блоков оборвана")
    else ok (
        onward (record {
          offset = h.next;
          out = out;
          size = some total;
          blocks = suc w.blocks;
          visited = w.offset ∷ w.visited;
        }))

-- Behind the header of a block. The end of the block fits in an index if it fits in the container.
abbrev pub with_header : List ℕ → ℕ → Walk → BlockHeader → ℕ → Result MetadataError Turn
with_header container limit w h total =
    let count = min h.block (total - length w.out) in
    let start = w.offset + 31 in
    if ltb limit total
    then err (malformed "документ контейнера превысил предел байтов")
    else if ltb (length container) (start + count)
    then err (malformed "блок выходит за контейнер")
    else taken w h total (w.out ++ slice container start count)

abbrev pub broken : List ℕ → Walk → Bool
broken container w =
    ltb block_limit (suc w.blocks)
    || contains w.visited w.offset
    || ltb (length container) (w.offset + 31)

unfoldable pub turn : List ℕ → ℕ → ℕ → Walk → Result MetadataError Turn
turn container minimum limit w =
    let header = block_header container w.offset minimum in
    if broken container w
    then err (malformed "цепочка блоков повреждена")
    else (header >>= λ h. with_header container limit w h (declared w.size h.total))

abbrev pub follow : (Walk → Result MetadataError (List ℕ)) → Turn → Result MetadataError (List ℕ)
follow again (finished bytes) = ok bytes
follow again (onward next) = again next

-- The `loop`, on fuel
unfoldable pub walk : ℕ → List ℕ → ℕ → ℕ → Walk → Result MetadataError (List ℕ)
walk zero container minimum limit w = stuck
walk (suc fuel) container minimum limit w =
    turn container minimum limit w >>= follow (λ next. walk fuel container minimum limit next)

abbrev pub first_walk : ℕ → Walk
first_walk offset = record { offset = offset; out = []; size = none; blocks = 0; visited = [] }

unfoldable pub document : List ℕ → ℕ → ℕ → ℕ → Result MetadataError (List ℕ)
document container offset minimum limit =
    walk (suc block_limit) container minimum limit (first_walk offset)
