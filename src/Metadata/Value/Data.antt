-- ===== src/Metadata/Value/Data.antt =====
-- `Value` of src/metadata/value.rs and the scalars that its parser looks at.
use open_sdbl.Prelude.{
  ℕ, suc, ◌+◌, ◌-◌, ◌*◌, Bool, true, false, not, ◌&&◌, ◌||◌, List, [], ◌∷◌, Option, none, some, leb,
  ◌==◌, if◌then◌else◌, codes,
}
use open_sdbl.Lexer.Chars.{byte_length, is_ascii_digit}
use open_sdbl.Lexer.Lookup.{chars_eq}
use open_sdbl.Metadata.Guid.{valid_from}

mutual
  pub data Value : Type 0 where
    list : Values → Value
    string atom : List ℕ → Value
    null : Value

  pub data Values : Type 0 where
    nil : Values
    cons : Value → Values → Values

-- The vector of a list, and its `push`
abbrev pub snoc : Values → Value → Values
snoc nil v = cons v nil
snoc (cons w ws) v = cons w (snoc ws v)

abbrev pub count : Values → ℕ
count nil = 0
count (cons v vs) = suc (count vs)

abbrev pub as_list : Value → Option Values
as_list (list vs) = some vs
as_list (string s) = none
as_list (atom s) = none
as_list null = none

abbrev pub as_string : Value → Option (List ℕ)
as_string (list vs) = none
as_string (string s) = some s
as_string (atom s) = none
as_string null = none

abbrev pub as_scalar : Value → Option (List ℕ)
as_scalar (list vs) = none
as_scalar (string s) = some s
as_scalar (atom s) = some s
as_scalar null = none

-- `str::parse::<u32>`: an optional plus sign and digits that fit.
unfoldable digits_value : ℕ → List ℕ → Option ℕ
unfolding is_ascii_digit
digits_value n [] = some n
digits_value n (c ∷ cs) =
    let m = n * 10 + (c - b'0') in
    let rest = digits_value m cs in if is_ascii_digit c && leb m 0xffffffff then rest else none

unfoldable unsigned : List ℕ → Option ℕ
unfolding digits_value
unsigned [] = none
unsigned (c ∷ cs) = digits_value 0 (c ∷ cs)

unfoldable pub parse_u32 : List ℕ → Option ℕ
unfolding unsigned digits_value
parse_u32 [] = none
parse_u32 (c ∷ cs) = if c == b'+' then unsigned cs else digits_value 0 (c ∷ cs)

abbrev pub as_u32 : Value → Option ℕ
as_u32 (list vs) = none
as_u32 (string s) = none
as_u32 (atom s) = parse_u32 s
as_u32 null = none

-- `Guid::from_str` of src/metadata/guid.rs, where it is only asked whether it succeeds. A text of
-- 36 bytes whose bytes all pass is ASCII.
unfoldable pub is_guid : List ℕ → Bool
is_guid text = byte_length text == 36 && valid_from 0 text

-- `identity_collection` of src/metadata/runtime_metadata/identity.rs
unfoldable pub identity_collection : List ℕ → Bool
unfolding chars_eq
identity_collection id =
    chars_eq id (codes "21c53e09-8950-4b5e-a6a0-1054f1bbc274")
    || chars_eq id (codes "a3fe6537-d787-40f7-8a06-419d2f0c1cfd")
    || chars_eq id (codes "2bcef0d1-0981-11d6-b9b8-0050bae0a95d")
    || chars_eq id (codes "b077d780-29e2-11d6-a3c7-0050bae0a776")
    || chars_eq id (codes "bee0a08c-07eb-40c0-8544-5c364c171465")

abbrev foreign_id : Option (List ℕ) → Bool
foreign_id none = false
foreign_id (some id) = is_guid id && not (identity_collection id)

abbrev is_some : Option ℕ → Bool
is_some none = false
is_some (some n) = true

-- `discard`: in an identity projection, the members of a counted collection of a foreign kind.
unfoldable pub discards : Bool → Values → Bool
discards identity_only (cons v (cons w vs)) =
    identity_only && foreign_id (as_scalar v) && is_some (as_u32 w)
discards identity_only vs = false
