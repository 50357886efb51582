-- ===== src/Metadata/Guid/Shape.antt =====
-- The texts that `from_str` of src/metadata/guid.rs takes for GUIDs, and the text that it makes of
-- one.
use open_sdbl.Prelude.{
  ℕ, zero, suc, ◌+◌, ◌≤◌, ◌≡◌, refl, sym, ap, subst, ◌∙◌, Bool, true, false, ◌⊎◌, inl, inr, ◌↔◌,
  List, [], ◌∷◌, ◌++◌, ◌==◌, if◌then◌else◌, length, replicate, arith,
}
use open_sdbl.Prelude.Result.{ok}
use open_sdbl.Lexer.Chars.{is_ascii_hexdigit}
use open_sdbl.Metadata.Guid.{Guid, is_separator, valid_from, lowercase_byte, lowercase, from_str}
use open_sdbl.Metadata.Guid.Canonical.{
  &&-true, true-&&, Accepted, from_str-Accepted, Accepted-from_str, from_str-canonical,
}

pub data Place : Type 0 where
  hyphen digit : Place

-- Groups of 8, 4, 4, 4 and 12 digits with a hyphen between two groups
abbrev pub groups : List Place
groups =
    replicate 8 digit
    ++ hyphen
      ∷ (replicate 4 digit
          ++ hyphen
            ∷ (replicate 4 digit ++ hyphen ∷ (replicate 4 digit ++ hyphen ∷ replicate 12 digit)))

-- A hexadecimal digit of either case, and the same digit in lower case
abbrev pub LowersTo : ℕ → ℕ → Type 0
LowersTo c d =
    ((b'0' ≤ c) × (c ≤ b'9') × (d ≡ c))
    ⊎ (((b'a' ≤ c) × (c ≤ b'f') × (d ≡ c)) ⊎ ((b'A' ≤ c) × (c ≤ b'F') × (d + b'A' ≡ c + b'a')))

-- A text that has the places, and its canonical form
abbrev pub Canonizes : List Place → List ℕ → List ℕ → Type 0
Canonizes [] [] [] = Unit
Canonizes [] [] (d ∷ ds) = ⊥
Canonizes [] (c ∷ cs) ds = ⊥
Canonizes (p ∷ ps) [] ds = ⊥
Canonizes (p ∷ ps) (c ∷ cs) [] = ⊥
Canonizes (hyphen ∷ ps) (c ∷ cs) (d ∷ ds) = (c ≡ b'-') × (d ≡ b'-') × Canonizes ps cs ds
Canonizes (digit ∷ ps) (c ∷ cs) (d ∷ ds) = LowersTo c d × Canonizes ps cs ds

-- The places that the tests of the code describe, from an index on.
abbrev place_at : Bool → Place
place_at true = hyphen
place_at false = digit

abbrev places : ℕ → ℕ → List Place
places index zero = []
places index (suc n) = place_at (is_separator index) ∷ places (suc index) n

places-groups : places 0 36 ≡ groups
places-groups = refl

LowersTo-lowercase_byte : (c : ℕ) → is_ascii_hexdigit c ≡ true → LowersTo c (lowercase_byte c)
unfolding is_ascii_hexdigit
LowersTo-lowercase_byte c h = ground arith

LowersTo-is_ascii_hexdigit :
    (c d : ℕ) → LowersTo c d → (is_ascii_hexdigit c ≡ true) × (d ≡ lowercase_byte c)
unfolding is_ascii_hexdigit
LowersTo-is_ascii_hexdigit c d (inl h) = (ground arith, ground arith)
LowersTo-is_ascii_hexdigit c d (inr (inl h)) = (ground arith, ground arith)
LowersTo-is_ascii_hexdigit c d (inr (inr h)) = (ground arith, ground arith)

place-Canonizes :
    (separator : Bool) (c : ℕ) (ps : List Place) (cs ds : List ℕ)
    → (if separator then c == b'-' else is_ascii_hexdigit c) ≡ true
    → Canonizes ps cs ds
    → Canonizes (place_at separator ∷ ps) (c ∷ cs) (lowercase_byte c ∷ ds)
place-Canonizes true c ps cs ds h k = (ground arith, ground arith, k)
place-Canonizes false c ps cs ds h k = (LowersTo-lowercase_byte c h, k)

Canonizes-place :
    (separator : Bool) (c d : ℕ) (ps : List Place) (cs ds : List ℕ)
    → Canonizes (place_at separator ∷ ps) (c ∷ cs) (d ∷ ds)
    → ((if separator then c == b'-' else is_ascii_hexdigit c) ≡ true)
      × (d ≡ lowercase_byte c)
      × Canonizes ps cs ds
Canonizes-place true c d ps cs ds (h, k, more) = (ground arith, ground arith, more)
Canonizes-place false c d ps cs ds (h, more) =
    let (is_digit, same) = LowersTo-is_ascii_hexdigit c d h in (is_digit, same, more)

valid_from-Canonizes :
    (index : ℕ) (cs : List ℕ)
    → valid_from index cs ≡ true
    → Canonizes (places index (length cs)) cs (lowercase cs)
unfolding valid_from
valid_from-Canonizes index [] h = tt
valid_from-Canonizes index (c ∷ cs) h =
    let (stands, valid) =
      &&-true (if is_separator index then c == b'-' else is_ascii_hexdigit c)
        (valid_from (suc index) cs) h in
    place-Canonizes (is_separator index) c (places (suc index) (length cs)) cs (lowercase cs) stands
      (valid_from-Canonizes (suc index) cs valid)

Canonizes-valid_from :
    (n index : ℕ) (cs ds : List ℕ)
    → Canonizes (places index n) cs ds
    → (length cs ≡ n) × (valid_from index cs ≡ true) × (ds ≡ lowercase cs)
unfolding valid_from
Canonizes-valid_from zero index [] [] h = (refl, refl, refl)
Canonizes-valid_from zero index [] (d ∷ ds) h = absurd h
Canonizes-valid_from zero index (c ∷ cs) ds h = absurd h
Canonizes-valid_from (suc n) index [] ds h = absurd h
Canonizes-valid_from (suc n) index (c ∷ cs) [] h = absurd h
Canonizes-valid_from (suc n) index (c ∷ cs) (d ∷ ds) h =
    let (stands, same, more) =
      Canonizes-place (is_separator index) c d (places (suc index) n) cs ds h in
    let (size, valid, rest) = Canonizes-valid_from n (suc index) cs ds more in
    (
      ap suc size,
      true-&& (if is_separator index then c == b'-' else is_ascii_hexdigit c)
          (valid_from (suc index) cs) stands valid,
      ap (λ b. b ∷ ds) same ∙ ap (λ bs. lowercase_byte c ∷ bs) rest,
    )

-- A text is read as a GUID exactly if it is five groups of 8, 4, 4, 4 and 12 hexadecimal digits with
-- hyphens between them; the text of the GUID is then the same with its digits in lower case, and is
-- itself read as that GUID.
pub from_str-Canonizes :
    (value : List ℕ) (g : Guid)
    → (from_str value ≡ ok g) ↔ (Canonizes groups value g.text × (from_str g.text ≡ ok g))
unfolding Accepted
from_str-Canonizes value g = (
  λ e.
      let (size, valid, is) = from_str-Accepted value g e in
      let shown = valid_from-Canonizes 0 value valid in
      (
        subst (λ t. Canonizes groups value t) (sym is)
            (subst (λ n. Canonizes (places 0 n) value (lowercase value)) size shown),
        from_str-canonical value g e,
      ),
  λ (reads, _). Accepted-from_str value g (Canonizes-valid_from 36 0 value g.text reads),
)
