-- ===== src/Metadata/Guid/Canonical.antt =====
-- The texts and the bytes of the GUIDs that src/metadata/guid.rs accepts.
use open_sdbl.Prelude.{
  ℕ, zero, suc, ◌+◌, ◌*◌, ◌≡◌, ◌≢◌, refl, sym, ap, subst, ◌∙◌, Bool, true, false, ◌&&◌, List, [],
  ◌∷◌, Option, none, some, ◌==◌, if◌then◌else◌, if_elim, Bool-cases, inl, inr, length,
  length-append, arith,
}
use open_sdbl.Prelude.Result.{
  Result, ok, err, stuck, Ensures, holds, Ensures-intro, Ensures->>=, Ensures-ok, Ensures-ne-stuck,
}
use open_sdbl.Lexer.Chars.{is_ascii_hexdigit}
use open_sdbl.Metadata.Guid.{
  Guid, is_separator, valid_from, lowercase_byte, lowercase, from_str, nibble, Halves, add_nibble,
  add_byte, bytes_from, to_bytes,
}

pub &&-true : (a b : Bool) → (a && b) ≡ true → (a ≡ true) × (b ≡ true)
&&-true true b h = (refl, h)
&&-true false b h = cc

pub true-&& : (a b : Bool) → a ≡ true → b ≡ true → (a && b) ≡ true
true-&& true b h k = k
true-&& false b h k = cc

length-lowercase : (cs : List ℕ) → length (lowercase cs) ≡ length cs
length-lowercase [] = refl
length-lowercase (c ∷ cs) = ap suc (length-lowercase cs)

lowercase_byte-lowercase_byte : (c : ℕ) → lowercase_byte (lowercase_byte c) ≡ lowercase_byte c
lowercase_byte-lowercase_byte c = ground arith

lowercase-lowercase : (cs : List ℕ) → lowercase (lowercase cs) ≡ lowercase cs
lowercase-lowercase [] = refl
lowercase-lowercase (c ∷ cs) =
    ap (λ b. b ∷ lowercase (lowercase cs)) (lowercase_byte-lowercase_byte c)
    ∙ ap (λ bs. lowercase_byte c ∷ bs) (lowercase-lowercase cs)

-- A byte that may stand at an index.
Stands : ℕ → ℕ → Type 0
Stands index c = (if is_separator index then c == b'-' else is_ascii_hexdigit c) ≡ true

Stands-lowercase_byte : (index c : ℕ) → Stands index c → Stands index (lowercase_byte c)
unfolding Stands is_ascii_hexdigit
Stands-lowercase_byte index c h = ground arith

valid_from-lowercase :
    (index : ℕ) (cs : List ℕ) → valid_from index cs ≡ true → valid_from index (lowercase cs) ≡ true
unfolding valid_from Stands
valid_from-lowercase index [] h = refl
valid_from-lowercase index (c ∷ cs) h =
    let (stands, valid) =
      &&-true (if is_separator index then c == b'-' else is_ascii_hexdigit c)
        (valid_from (suc index) cs) h in
    true-&&
      (if is_separator index
        then lowercase_byte c == b'-'
        else is_ascii_hexdigit (lowercase_byte c))
      (valid_from (suc index) (lowercase cs)) (Stands-lowercase_byte index c stands)
      (valid_from-lowercase (suc index) cs valid)

-- What `from_str` accepts: 36 bytes that each may stand at their place.
unfoldable pub Accepted : List ℕ → Guid → Type 0
Accepted value g = (length value ≡ 36) × (valid_from 0 value ≡ true) × (g.text ≡ lowercase value)

pub from_str-Accepted : (value : List ℕ) (g : Guid) → from_str value ≡ ok g → Accepted value g
unfolding from_str Accepted
from_str-Accepted value g e =
    if_elim (λ r. r ≡ ok g → Accepted value g) (length value == 36 && valid_from 0 value)
      (ok (record { text = lowercase value })) (err value)
      (λ passed read.
        let (size, valid) = &&-true (length value == 36) (valid_from 0 value) passed in
        let canonical : Guid = record { text = lowercase value } in
        let same : canonical ≡ g = cc in
        (ground arith, valid, sym (ap (λ (x : Guid). x.text) same)))
      (λ _ read. cc) e

pub Accepted-from_str : (value : List ℕ) (g : Guid) → Accepted value g → from_str value ≡ ok g
unfolding from_str Accepted
Accepted-from_str value g (size, valid, is) =
    let passed : (length value == 36 && valid_from 0 value) ≡ true =
      true-&& (length value == 36) (valid_from 0 value) (ground arith) valid in
    rw passed (ap (λ t. ok (record { text = t })) (sym is))

-- The text of a GUID that was read is itself read as that GUID.
pub from_str-canonical :
    (value : List ℕ) (g : Guid) → from_str value ≡ ok g → from_str g.text ≡ ok g
unfolding from_str Accepted
from_str-canonical value g e =
    let (size, valid, is) = from_str-Accepted value g e in
    let size' : length g.text ≡ 36 = ap length is ∙ length-lowercase value ∙ size in
    Accepted-from_str g.text g (
      size',
      ap (valid_from 0) is ∙ valid_from-lowercase 0 value valid,
      is ∙ sym (lowercase-lowercase value) ∙ ap lowercase (sym is),
    )

-- How many of the next `n` places are those of digits.
abbrev digit_places : ℕ → ℕ → ℕ
digit_places index zero = 0
digit_places index (suc n) = (if is_separator index then 0 else 1) + digit_places (suc index) n

abbrev waiting : Option ℕ → ℕ
waiting none = 0
waiting (some high) = 1

abbrev digits_in : Halves → ℕ
digits_in (high, bytes) = waiting high + 2 * length bytes

-- A canonical byte adds a digit, or none where a hyphen stands.
Adds : ℕ → Halves → Halves → Type 0
Adds index s s' = digits_in s' ≡ digits_in s + (if is_separator index then 0 else 1)

add_nibble-digits_in : (s : Halves) (n : ℕ) → digits_in (add_nibble s n) ≡ digits_in s + 1
add_nibble-digits_in (none, bytes) n = omega arith
add_nibble-digits_in (some high, bytes) n =
    omega (arith, length-append bytes ((high * 16 + n) ∷ []))

add_byte-Adds :
    (index c : ℕ) (s : Halves)
    → Stands index c
    → Ensures (Adds index s) (add_byte s (lowercase_byte c))
unfolding Stands is_ascii_hexdigit Adds
add_byte-Adds index c s h = elim (Bool-cases (is_separator index)) [
  | inl separator ↦
      let hyphen : (lowercase_byte c == b'-') ≡ true = ground arith in
      rw hyphen (holds (ground arith))
  | inr digit ↦
      let no_hyphen : (lowercase_byte c == b'-') ≡ false = ground arith in
      let read : nibble (lowercase_byte c) ≢ stuck = ground arith in
      rw no_hyphen (
        Ensures->>= (nibble (lowercase_byte c)) (λ n. ok (add_nibble s n))
          (Ensures-intro {P = λ n. Unit {0}} (nibble (lowercase_byte c)) read (λ n k. tt))
          (λ n _ _. let one = add_nibble-digits_in s n in holds (ground arith)))
]

bytes_from-length :
    (index : ℕ) (cs : List ℕ) (s : Halves)
    → valid_from index cs ≡ true
    → digits_in s + digit_places index (length cs) ≡ 32
    → Ensures (λ bytes. length bytes ≡ 16) (bytes_from s (lowercase cs))
unfolding valid_from bytes_from Adds Stands
bytes_from-length index [] (none, bytes) h e = holds (omega arith)
bytes_from-length index [] (some high, bytes) h e = absurd (omega arith)
bytes_from-length index (c ∷ cs) s h e =
    let (stands, valid) =
      &&-true (if is_separator index then c == b'-' else is_ascii_hexdigit c)
        (valid_from (suc index) cs) h in
    Ensures->>= (add_byte s (lowercase_byte c)) (λ s'. bytes_from s' (lowercase cs))
      (add_byte-Adds index c s stands)
      (λ s' _ adds. bytes_from-length (suc index) cs s' valid (omega (arith, adds, e)))

no_error :
    {P : List ℕ → Type 0} (r : Result ⊥ (List ℕ))
    → Ensures P r
    → (bytes : List ℕ) × (r ≡ ok bytes) × P bytes
no_error (ok bytes) h = (bytes, refl, Ensures-ok h refl)
no_error (err e) h = absurd e
no_error stuck h = absurd (Ensures-ne-stuck h refl)

-- A GUID that was read has bytes, and they are sixteen: no byte of its text is one that the code
-- holds to be unreachable.
pub to_bytes-length :
    (value : List ℕ) (g : Guid)
    → from_str value ≡ ok g
    → (bytes : List ℕ) × (to_bytes g ≡ ok bytes) × (length bytes ≡ 16)
unfolding to_bytes Accepted
to_bytes-length value g e =
    let (size, valid, is) = from_str-Accepted value g e in
    let places : digits_in (none, []) + digit_places 0 (length value) ≡ 32 =
      ap (λ n. 0 + digit_places 0 n) size in
    let read =
      no_error (bytes_from (none, []) (lowercase value))
        (bytes_from-length 0 value (none, []) valid places) in
    subst (λ t. (bytes : List ℕ) × (bytes_from (none, []) t ≡ ok bytes) × (length bytes ≡ 16))
      (sym is) read
