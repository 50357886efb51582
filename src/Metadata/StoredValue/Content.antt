-- ===== src/Metadata/StoredValue/Content.antt =====
-- The content of a storage field, in src/metadata/value_storage.rs.
use open_sdbl.Prelude.{ℕ, Bool, false, List, [], ◌∷◌, ltb, ◌==◌, if◌then◌else◌, length, drop}
use open_sdbl.Prelude.Result.{Result, ok, err, stuck, ◌>>=◌}
use open_sdbl.Metadata.Error.{
  MetadataError, Message, serialization, literal, quoting, new_error, display_error,
}
use open_sdbl.Metadata.Inflate.Stream.{inflate_raw_deflate_bounded}
use open_sdbl.Metadata.Utf8.{from_utf8}
use open_sdbl.Metadata.Value.Data.{Value}
use open_sdbl.Metadata.Value.Parse.{parse_serialized, without_mark, text_of}
use open_sdbl.Metadata.StoredValue.Reference.{marker, starts_with}

-- `malformed`, with the prefix that it puts before each message
abbrev stored_malformed : Message → MetadataError
stored_malformed = new_error serialization

-- `CONTENT_HEADER`
abbrev pub content_header : ℕ
content_header = 10

abbrev pub inflated : Result MetadataError (List ℕ) → Result MetadataError (List ℕ)
inflated (ok bytes) = ok bytes
inflated (err e) = err (
    stored_malformed (quoting "stored value: content is not the serialization: " (display_error e)))
inflated stuck = stuck

abbrev pub begins_with_brace : List ℕ → Bool
begins_with_brace [] = false
begins_with_brace (b ∷ bs) = b == b'{'

-- The body behind the header
abbrev pub decoded_body : List ℕ → ℕ → Result MetadataError (List ℕ)
decoded_body body limit =
    let serialized = without_mark body in
    if begins_with_brace serialized
    then (if ltb limit (length body)
        then err (stored_malformed (literal "stored value: decoded content exceeds its byte limit"))
        else ok body)
    else inflated (inflate_raw_deflate_bounded serialized limit)

-- Borrowed and owned bytes are the same list.
unfoldable pub decoded_stored_value_content : List ℕ → ℕ → Result MetadataError (List ℕ)
decoded_stored_value_content content limit =
    if starts_with content marker
    then err (stored_malformed (literal "stored value: reference is not stored-value content"))
    else if ltb (length content) content_header
    then err (stored_malformed (literal "stored value: content shorter than its header"))
    else decoded_body (drop content_header content) limit

-- The text is given by its bytes, which are checked to be UTF-8.
unfoldable pub decode_stored_value_text : List ℕ → ℕ → Result MetadataError (List ℕ)
decode_stored_value_text content limit = decoded_stored_value_content content limit >>= λ bytes.
    text_of (from_utf8 (without_mark bytes)) λ text. ok (without_mark bytes)

unfoldable pub decode_stored_value : List ℕ → ℕ → Result MetadataError Value
decode_stored_value content limit = decoded_stored_value_content content limit >>= parse_serialized
