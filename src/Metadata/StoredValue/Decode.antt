-- ===== src/Metadata/StoredValue/Decode.antt =====
-- What src/metadata/value_storage.rs makes of the content of a storage field.
use open_sdbl.Prelude.{
  ℕ, zero, suc, ◌≤◌, ◌≡◌, ◌≢◌, refl, ap, subst, ◌∙◌, false, List, [], ◌∷◌, ◌++◌, ltb, if_elim,
  length, length-append, take, drop, All, arith,
}
use open_sdbl.Prelude.Result.{
  Result, ok, err, stuck, ◌>>=◌, >>=-ne-stuck, Ensures, holds, rejected, Ensures-intro, Ensures-ok,
  Ensures-ne-stuck,
}
use open_sdbl.Lexer.Lookup.{chars_eq}
use open_sdbl.Metadata.Error.{MetadataError}
use open_sdbl.Metadata.Inflate.Stream.{inflate_raw_deflate_bounded}
use open_sdbl.Metadata.Inflate.Stream.Total.{inflate-ne-stuck, inflate-le-limit}
use open_sdbl.Metadata.Utf8.{from_utf8}
use open_sdbl.Metadata.Utf8.Total.{from_utf8-ne-stuck}
use open_sdbl.Metadata.Utf8.Encode.{as_bytes, IsScalar, from_utf8-as_bytes}
use open_sdbl.Metadata.Value.Data.{Value, Values}
use open_sdbl.Metadata.Value.Parse.{
  new_parser, parse, parse_serialized, serialized_nesting_limit, without_mark, text_of,
}
use open_sdbl.Metadata.Value.Depth.{parse-ne-stuck}
use open_sdbl.Metadata.Value.Total.{nesting}
use open_sdbl.Metadata.Value.Print.{print, print_items, Printable}
use open_sdbl.Metadata.Value.RoundTrip.{parse-print}
use open_sdbl.Metadata.StoredValue.Reference.{marker, starts_with}
use open_sdbl.Metadata.StoredValue.Content.{
  content_header, inflated, begins_with_brace, decoded_body, decoded_stored_value_content,
  decode_stored_value_text, decode_stored_value,
}

inflated-Ensures :
    (limit : ℕ) (r : Result MetadataError (List ℕ))
    → Ensures (λ bytes. length bytes ≤ limit) r
    → Ensures (λ bytes. length bytes ≤ limit) (inflated r)
inflated-Ensures limit (ok bytes) h = h
inflated-Ensures limit (err e) h = rejected
inflated-Ensures limit stuck h = absurd (Ensures-ne-stuck h refl)

decoded_body-Ensures :
    (body : List ℕ) (limit : ℕ) → Ensures (λ bytes. length bytes ≤ limit) (decoded_body body limit)
decoded_body-Ensures body limit =
    let serialized = without_mark body in
    let P : Result MetadataError (List ℕ) → Type 0 = Ensures (λ bytes. length bytes ≤ limit) in
    if_elim P (begins_with_brace serialized) _ _
      (λ _.
        if_elim P (ltb limit (length body)) _ _ (λ _. rejected)
          (λ small. let low : length body ≤ limit = ground arith in holds low))
      (λ _. inflated-Ensures limit (inflate_raw_deflate_bounded serialized limit) (
        Ensures-intro (inflate_raw_deflate_bounded serialized limit)
          (inflate-ne-stuck serialized limit)
          (λ bytes e. inflate-le-limit serialized limit bytes e)))

content-Ensures :
    (content : List ℕ) (limit : ℕ)
    → Ensures (λ bytes. length bytes ≤ limit) (decoded_stored_value_content content limit)
unfolding decoded_stored_value_content
content-Ensures content limit =
    let P : Result MetadataError (List ℕ) → Type 0 = Ensures (λ bytes. length bytes ≤ limit) in
    if_elim P (starts_with content marker) _ _ (λ _. rejected)
      λ _.
        if_elim P (ltb (length content) content_header) _ _ (λ _. rejected)
          λ _. decoded_body-Ensures (drop content_header content) limit

-- The decoded content of a storage field has at most `limit` bytes, whether it was compressed or not.
pub decoded_stored_value_content-le-limit :
    (content : List ℕ) (limit : ℕ) (bytes : List ℕ)
    → decoded_stored_value_content content limit ≡ ok bytes
    → length bytes ≤ limit
decoded_stored_value_content-le-limit content limit bytes e =
    Ensures-ok (content-Ensures content limit) e

text_of-ne-stuck {ℓ} :
    {A : Type ℓ} (r : Result ℕ (List ℕ)) (f : List ℕ → Result MetadataError A)
    → r ≢ stuck
    → ((text : List ℕ) → f text ≢ stuck)
    → text_of r f ≢ stuck
text_of-ne-stuck (ok text) f h k = k text
text_of-ne-stuck (err offset) f h k = λ p. cc
text_of-ne-stuck stuck f h k = absurd (h refl)

pub parse_serialized-ne-stuck : (input : List ℕ) → parse_serialized input ≢ stuck
unfolding parse_serialized
parse_serialized-ne-stuck input =
    text_of-ne-stuck (from_utf8 (without_mark input)) (λ text. parse (new_parser text))
      (from_utf8-ne-stuck (without_mark input)) (λ text. parse-ne-stuck (new_parser text))

-- Decoding a storage field ends on every content and limit, as a value and as a text.
pub decode_stored_value-ne-stuck :
    (content : List ℕ) (limit : ℕ)
    → (decode_stored_value content limit ≢ stuck) × (decode_stored_value_text content limit ≢ stuck)
unfolding decode_stored_value decode_stored_value_text
decode_stored_value-ne-stuck content limit =
    let decoded = decoded_stored_value_content content limit in
    let ends = Ensures-ne-stuck (content-Ensures content limit) in
    (
      >>=-ne-stuck decoded parse_serialized ends (λ bytes _. parse_serialized-ne-stuck bytes),
      >>=-ne-stuck decoded _ ends λ bytes _.
          text_of-ne-stuck (from_utf8 (without_mark bytes)) (λ text. ok (without_mark bytes))
            (from_utf8-ne-stuck (without_mark bytes)) (λ text p. cc),
    )

-- A text that begins with a brace has no byte order mark.
without_mark-brace : (bs : List ℕ) → without_mark (b'{' ∷ bs) ≡ b'{' ∷ bs
without_mark-brace [] = refl
without_mark-brace (a ∷ []) = refl
without_mark-brace (a ∷ (b ∷ bs)) = refl

take-append_left {ℓ} :
    {A : Type ℓ} (n : ℕ) (xs ys : List A) → n ≤ length xs → take n (xs ++ ys) ≡ take n xs
take-append_left zero xs ys h = refl
take-append_left (suc n) [] ys h = absurd (omega arith)
take-append_left (suc n) (x ∷ xs) ys h = ap (λ l. x ∷ l) (take-append_left n xs ys (omega arith))

drop_front {ℓ} : {A : Type ℓ} (xs ys : List A) → drop (length xs) (xs ++ ys) ≡ ys
drop_front [] ys = refl
drop_front (x ∷ xs) ys = drop_front xs ys

-- The body of a content in plain text
plain-content :
    (header bs : List ℕ) (limit : ℕ)
    → length header ≡ content_header
    → starts_with header marker ≡ false
    → length (b'{' ∷ bs) ≤ limit
    → decoded_stored_value_content (header ++ b'{' ∷ bs) limit ≡ ok (b'{' ∷ bs)
unfolding decoded_stored_value_content starts_with
plain-content header bs limit size no_marker low =
    let content = header ++ b'{' ∷ bs in
    let front = take-append_left (length marker) header (b'{' ∷ bs) (omega arith) in
    let reference : chars_eq (take (length marker) content) marker ≡ false =
      ap (λ l. chars_eq l marker) front ∙ no_marker in
    let whole = length-append header (b'{' ∷ bs) in
    let long : ltb (length content) content_header ≡ false = ground arith in
    let behind : drop content_header content ≡ b'{' ∷ bs =
      subst (λ n. drop n content ≡ b'{' ∷ bs) size (drop_front header (b'{' ∷ bs)) in
    let fits : ltb limit (length (b'{' ∷ bs)) ≡ false = ground arith in
    rw (reference, long, behind, without_mark-brace bs, fits) refl

parse_serialized-print :
    (vs : Values)
    → Printable (Value.list vs)
    → nesting (Value.list vs) ≤ serialized_nesting_limit
    → All IsScalar (print (Value.list vs) [])
    → parse_serialized (as_bytes (print (Value.list vs) [])) ≡ ok (Value.list vs)
unfolding parse_serialized as_bytes
parse_serialized-print vs h levels scalars =
    let text = print (Value.list vs) [] in
    ap (λ b. text_of (from_utf8 b) λ t. parse (new_parser t))
      (without_mark-brace (as_bytes (print_items vs (b'}' ∷ []))))
    ∙ ap (λ r. text_of r λ t. parse (new_parser t)) (from_utf8-as_bytes text scalars)
    ∙ parse-print (Value.list vs) h refl levels

-- A list whose text is stored without compression is read back: for every header of ten bytes that
-- is not the marker of a reference, every list that has a text of Unicode characters and nests at
-- most 512 deep, and every limit that its UTF-8 bytes keep.
pub decode_stored_value-print :
    (header : List ℕ) (vs : Values) (limit : ℕ)
    → length header ≡ content_header
    → starts_with header marker ≡ false
    → Printable (Value.list vs)
    → nesting (Value.list vs) ≤ serialized_nesting_limit
    → All IsScalar (print (Value.list vs) [])
    → length (as_bytes (print (Value.list vs) [])) ≤ limit
    → decode_stored_value (header ++ as_bytes (print (Value.list vs) [])) limit ≡ ok (Value.list vs)
unfolding decode_stored_value as_bytes
decode_stored_value-print header vs limit size no_marker h levels scalars low =
    ap (λ r. r >>= parse_serialized)
      (plain-content header (as_bytes (print_items vs (b'}' ∷ []))) limit size no_marker low)
    ∙ parse_serialized-print vs h levels scalars
