-- ===== src/Metadata/StoredValue/Reference.antt =====
-- The reference that a column holds, and the entries of a stored map, in
-- src/metadata/value_storage.rs.
use open_sdbl.Prelude.{
  ℕ, ◌+◌, ◌-◌, ◌*◌, ◌/◌, ◌%◌, Bool, not, ◌||◌, List, [], ◌∷◌, Option, none, some, ltb,
  if◌then◌else◌, codes, length, take, drop,
}
use open_sdbl.Lexer.Lookup.{chars_eq}
use open_sdbl.Metadata.Value.Data.{Value, Values, nil, cons, as_list, as_string}

-- `MARKER`
abbrev pub marker : List ℕ
marker = codes "STORHDR"

pub record StoredValueRef : Type 0 where
  pub key : List ℕ
  pub length : ℕ

-- `{:02x}` of a byte
abbrev hex_char : ℕ → ℕ
hex_char d = if ltb d 10 then b'0' + d else b'a' + (d - 10)

unfoldable pub key_digits : List ℕ → List ℕ
key_digits [] = []
key_digits (b ∷ bs) = hex_char (b / 16) ∷ (hex_char (b % 16) ∷ key_digits bs)

abbrev pub key_hex : StoredValueRef → List ℕ
key_hex r = key_digits r.key

-- `slice::starts_with`
unfoldable pub starts_with : List ℕ → List ℕ → Bool
starts_with bytes prefix = chars_eq (take (length prefix) bytes) prefix

-- `u64::from_le_bytes`
abbrev pub le_value : List ℕ → ℕ
le_value [] = 0
le_value (b ∷ bs) = b + 256 * le_value bs

unfoldable pub parse_stored_value_ref : List ℕ → Option StoredValueRef
parse_stored_value_ref bytes =
    if not (starts_with bytes marker) || ltb (length bytes) 40
    then none
    else some (record { key = take 16 (drop 16 bytes); length = le_value (take 8 (drop 32 bytes)) })

abbrev first : Values → Option Value
first nil = none
first (cons v vs) = some v

abbrev rest_of : Values → Values
rest_of nil = nil
rest_of (cons v vs) = vs

-- A bind on an optional value
abbrev pub and_then {ℓ} : {A B : Type ℓ} → Option A → (A → Option B) → Option B
and_then none f = none
and_then (some a) f = f a

abbrev when_s : Values → List ℕ → Option (List ℕ)
when_s vs kind = if chars_eq kind (codes "S") then and_then (first (rest_of vs)) as_string else none

abbrev listed_string : Values → Option (List ℕ)
listed_string vs = and_then (and_then (first vs) as_string) (when_s vs)

unfoldable pub entry_string : Value → Option (List ℕ)
entry_string (Value.string s) = some s
entry_string (Value.list vs) = listed_string vs
entry_string (Value.atom s) = none
entry_string Value.null = none

-- `find_map(Value::as_list)`
abbrev pub first_list : Values → Option Values
first_list nil = none
first_list (cons (Value.list vs) ws) = some vs
first_list (cons (Value.string s) ws) = first_list ws
first_list (cons (Value.atom s) ws) = first_list ws
first_list (cons Value.null ws) = first_list ws

-- The key and the value of a pair, where it has both
abbrev with_key : Values → List ℕ → Option (List ℕ × Value)
with_key pair key = and_then (first (rest_of pair)) λ value. some (key, value)

abbrev pub entry_of : Value → Option (List ℕ × Value)
entry_of v =
    and_then (as_list v) λ pair. and_then (and_then (first pair) entry_string) (with_key pair)

abbrev put : Option (List ℕ × Value) → List (List ℕ × Value) → List (List ℕ × Value)
put none entries = entries
put (some entry) entries = entry ∷ entries

abbrev pub entries_of : Values → List (List ℕ × Value)
entries_of nil = []
entries_of (cons v vs) = put (entry_of v) (entries_of vs)

abbrev pairs_entries : Option Values → List (List ℕ × Value)
pairs_entries none = []
pairs_entries (some pairs) = entries_of (rest_of pairs)

unfoldable pub stored_map_entries : Value → List (List ℕ × Value)
stored_map_entries value = pairs_entries (and_then (as_list value) first_list)
