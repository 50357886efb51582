-- ===== src/Net/Socks5/Text.antt =====
-- What crates/open-sdbl-db/src/net/socks5.rs uses of the standard library on texts and numbers.
use open_sdbl.Prelude.{
  ℕ, ◌+◌, ◌-◌, ◌*◌, ◌/◌, ◌%◌, ◌≡◌, Bool, false, ◌&&◌, ◌||◌, List, [], ◌∷◌, Option, none, some, leb,
  ltb, ◌==◌, if◌then◌else◌, length,
}

-- `{:02x}` of a byte
abbrev hex_char : ℕ → ℕ
hex_char d = if ltb d 10 then b'0' + d else b'a' + d - 10

abbrev pub hex_byte : ℕ → List ℕ
hex_byte b = hex_char (b / 16) ∷ (hex_char (b % 16) ∷ [])

-- `str::contains` of a character
abbrev pub has : ℕ → List ℕ → Bool
has c [] = false
has c (d ∷ ds) = d == c || has c ds

abbrev pub begin_with : ℕ → Option (List ℕ × List ℕ) → Option (List ℕ × List ℕ)
begin_with c none = none
begin_with c (some (front, back)) = some (c ∷ front, back)

-- `rsplit_once` at a character
unfoldable pub rsplit_once : ℕ → List ℕ → Option (List ℕ × List ℕ)
rsplit_once c [] = none
rsplit_once c (d ∷ ds) =
    let later = begin_with d (rsplit_once c ds) in
    if has c ds then later else if d == c then some ([], ds) else none

-- `split_once` at two characters
unfoldable pub split_once : ℕ → ℕ → List ℕ → Option (List ℕ × List ℕ)
split_once a b [] = none
split_once a b (c ∷ []) = none
split_once a b (c ∷ (d ∷ ds)) =
    let later = begin_with c (split_once a b (d ∷ ds)) in
    if c == a && d == b then some ([], ds) else later

-- `str::parse::<u16>`: an optional plus sign and digits that fit.
unfoldable pub digits_value : ℕ → List ℕ → Option ℕ
digits_value n [] = some n
digits_value n (c ∷ cs) =
    let m = n * 10 + (c - b'0') in
    let rest = digits_value m cs in if leb b'0' c && leb c b'9' && leb m 0xffff then rest else none

abbrev pub some_digits : List ℕ → Option ℕ
some_digits [] = none
some_digits (c ∷ cs) = digits_value 0 (c ∷ cs)

unfoldable pub parse_u16 : List ℕ → Option ℕ
parse_u16 [] = none
parse_u16 (c ∷ cs) = if c == b'+' then some_digits cs else some_digits (c ∷ cs)

-- `to_be_bytes` of 16 bits
abbrev pub be_bytes : ℕ → List ℕ
be_bytes n = (n / 256 % 256) ∷ ((n % 256) ∷ [])

-- `IpAddr`, by its octets
pub data IpAddr : Type 0 where
  v4 v6 : List ℕ → IpAddr

-- `str::parse::<IpAddr>`, with the documented numbers of octets
pub record IpParser : Type 0 where
  pub parse : List ℕ → Option IpAddr
  pub v4_octets : (text octets : List ℕ) → parse text ≡ some (v4 octets) → length octets ≡ 4
  pub v6_octets : (text octets : List ℕ) → parse text ≡ some (v6 octets) → length octets ≡ 16
