-- ===== src/Metadata/Container/Setting.antt =====
-- `decode_common_setting` of src/metadata/container.rs. A text is given by its UTF-8 bytes.
use open_sdbl.Prelude.{
  ℕ, ◌≡◌, ◌≢◌, refl, Bool, false, ◌&&◌, List, [], ◌∷◌, Option, none, some, if◌then◌else◌, if_elim,
  subst, codes, take, drop,
}
use open_sdbl.Prelude.Result.{Result, ok, err, stuck, ◌>>=◌, >>=-eq-ok, >>=-ne-stuck}
use open_sdbl.Lexer.Lookup.{chars_eq}
use open_sdbl.Metadata.Error.{MetadataError, literal, utf8_error}
use open_sdbl.Metadata.Guid.{lowercase}
use open_sdbl.Metadata.Utf8.{from_utf8}
use open_sdbl.Metadata.Utf8.Total.{from_utf8-ne-stuck}
use open_sdbl.Metadata.Value.Data.{Value, Values, nil, cons, as_list, as_string, as_scalar}
use open_sdbl.Metadata.Value.Parse.{parse_serialized, without_mark}
use open_sdbl.Metadata.Container.Blocks.{malformed}
use open_sdbl.Metadata.Container.Table.{read_container_entry}
use open_sdbl.Metadata.Container.Ends.{read_container_entry-ne-stuck}
use open_sdbl.Metadata.StoredValue.Content.{decode_stored_value_text}
use open_sdbl.Metadata.StoredValue.Decode.{parse_serialized-ne-stuck, decode_stored_value-ne-stuck}

pub data DecodedCommonSetting : Type 0 where
  value value_storage : List ℕ → DecodedCommonSetting

-- `ok_or_else` on a document
abbrev pub found : Option (List ℕ) → Result MetadataError (List ℕ)
found none = err (malformed "отсутствует корневой поток настройки")
found (some document) = ok document

abbrev pub contents_found : Option (List ℕ) → Result MetadataError (List ℕ)
contents_found none = err (malformed "отсутствует поток хранилища настройки")
contents_found (some document) = ok document

abbrev pub checked_text : List ℕ → Result ℕ (List ℕ) → Result MetadataError (List ℕ)
checked_text root (ok text) = ok (without_mark root)
checked_text root (err offset) = err (utf8_error offset (literal "поток настройки не UTF-8"))
checked_text root stuck = stuck

-- The class of the stored values
abbrev storage_class : List ℕ
storage_class = codes "e199ca70-93cf-46ce-a54b-6edc88c3a296"

abbrev is_text : List ℕ → Option (List ℕ) → Bool
is_text text none = false
is_text text (some s) = chars_eq s text

abbrev is_class : Option (List ℕ) → Bool
is_class none = false
is_class (some id) = chars_eq (lowercase id) storage_class

abbrev pub is_storage : Value → Bool
is_storage (Value.list (cons v (cons w ws))) =
    is_text (codes "#") (as_string v) && is_class (as_scalar w)
is_storage v = false

abbrev non_empty : List ℕ → Option (List ℕ)
non_empty [] = none
non_empty (c ∷ cs) = some (c ∷ cs)

-- `strip_prefix("#file:")`
abbrev file_name : Option (List ℕ) → Option (List ℕ)
file_name none = none
file_name (some text) =
    if chars_eq (take 6 text) (codes "#file:") then non_empty (drop 6 text) else none

abbrev only_item : Option Values → Option (List ℕ)
only_item (some (cons v nil)) = file_name (as_scalar v)
only_item o = none

abbrev pub reference : Value → Option (List ℕ)
reference (Value.list (cons u (cons v (cons w nil)))) = only_item (as_list w)
reference v = none

abbrev pub reference_found : Option (List ℕ) → Result MetadataError (List ℕ)
reference_found none = err (malformed "неподдержанная ссылка потока хранилища настройки")
reference_found (some name) = ok name

-- The setting that refers to a document with a stored value
abbrev pub storage_setting : List ℕ → ℕ → Value → Result MetadataError DecodedCommonSetting
storage_setting container limit v = reference_found (reference v) >>= λ name.
    read_container_entry container name limit >>= contents_found >>= λ contents.
    decode_stored_value_text contents limit >>= λ text.
    parse_serialized text >>= λ parsed. ok (value_storage text)

abbrev pub decoded_setting : List ℕ → ℕ → List ℕ → Value → Result MetadataError DecodedCommonSetting
decoded_setting container limit text v =
    if is_storage v then storage_setting container limit v else ok (value text)

unfoldable pub decode_common_setting : List ℕ → ℕ → Result MetadataError DecodedCommonSetting
decode_common_setting container document_limit =
    read_container_entry container (codes "$Stream$") document_limit >>= found >>= λ root.
    checked_text root (from_utf8 root) >>= λ text.
    parse_serialized text >>= decoded_setting container document_limit text

-- The text of a setting
abbrev pub setting_text : DecodedCommonSetting → List ℕ
setting_text (value text) = text
setting_text (value_storage text) = text

unfoldable Parses : DecodedCommonSetting → Type 0
Parses setting = (v : Value) × (parse_serialized (setting_text setting) ≡ ok v)

storage_setting-Parses :
    (container : List ℕ) (limit : ℕ) (v : Value) (setting : DecodedCommonSetting)
    → storage_setting container limit v ≡ ok setting
    → Parses setting
unfolding Parses
storage_setting-Parses container limit v setting e =
    let (name, _, e1) = >>=-eq-ok (reference_found (reference v)) _ e in
    let (contents, _, e2) =
      >>=-eq-ok (read_container_entry container name limit >>= contents_found) _ e1 in
    let (text, _, e3) = >>=-eq-ok (decode_stored_value_text contents limit) _ e2 in
    let (parsed, read, e4) = >>=-eq-ok (parse_serialized text) _ e3 in
    let same : value_storage text ≡ setting = cc in subst Parses same (parsed, read)

-- The text of every setting that is decoded, its own or that of the stored value it refers to, is one
-- that the value parser accepts.
pub decode_common_setting-Parses :
    (container : List ℕ) (document_limit : ℕ) (setting : DecodedCommonSetting)
    → decode_common_setting container document_limit ≡ ok setting
    → (v : Value) × (parse_serialized (setting_text setting) ≡ ok v)
unfolding decode_common_setting Parses
decode_common_setting-Parses container limit setting e =
    let (root, _, e1) =
      >>=-eq-ok (read_container_entry container (codes "$Stream$") limit >>= found) _ e in
    let (text, _, e2) = >>=-eq-ok (checked_text root (from_utf8 root)) _ e1 in
    let (v, read, e3) =
      >>=-eq-ok (parse_serialized text) (decoded_setting container limit text) e2 in
    if_elim (λ r. r ≡ ok setting → Parses setting) (is_storage v)
      (storage_setting container limit v) (ok (value text))
      (λ _ e4. storage_setting-Parses container limit v setting e4)
      (λ _ e4. let same : value text ≡ setting = cc in subst Parses same (v, read)) e3

found-ne-stuck : (o : Option (List ℕ)) → found o ≢ stuck
found-ne-stuck none p = cc
found-ne-stuck (some document) p = cc

contents_found-ne-stuck : (o : Option (List ℕ)) → contents_found o ≢ stuck
contents_found-ne-stuck none p = cc
contents_found-ne-stuck (some document) p = cc

reference_found-ne-stuck : (o : Option (List ℕ)) → reference_found o ≢ stuck
reference_found-ne-stuck none p = cc
reference_found-ne-stuck (some name) p = cc

checked_text-ne-stuck :
    (root : List ℕ) (r : Result ℕ (List ℕ)) → r ≢ stuck → checked_text root r ≢ stuck
checked_text-ne-stuck root (ok text) h = λ p. cc
checked_text-ne-stuck root (err offset) h = λ p. cc
checked_text-ne-stuck root stuck h = absurd (h refl)

-- Decoding a setting ends on every container and limit.
pub decode_common_setting-ne-stuck :
    (container : List ℕ) (document_limit : ℕ)
    → decode_common_setting container document_limit ≢ stuck
unfolding decode_common_setting
decode_common_setting-ne-stuck container limit =
    let stream = read_container_entry container (codes "$Stream$") limit in
    >>=-ne-stuck (stream >>= found) _
      (>>=-ne-stuck stream found (read_container_entry-ne-stuck container (codes "$Stream$") limit)
        (λ o _. found-ne-stuck o))
      λ root _.
        >>=-ne-stuck (checked_text root (from_utf8 root)) _
          (checked_text-ne-stuck root (from_utf8 root) (from_utf8-ne-stuck root))
          λ text _.
            >>=-ne-stuck (parse_serialized text) (decoded_setting container limit text)
              (parse_serialized-ne-stuck text)
              λ v _.
                if_elim (λ r. r ≢ stuck) (is_storage v) (storage_setting container limit v)
                  (ok (value text))
                  (λ _.
                    >>=-ne-stuck (reference_found (reference v)) _
                      (reference_found-ne-stuck (reference v))
                      λ name _.
                        >>=-ne-stuck (read_container_entry container name limit >>= contents_found)
                          _
                          (>>=-ne-stuck (read_container_entry container name limit) contents_found
                            (read_container_entry-ne-stuck container name limit)
                            (λ o _. contents_found-ne-stuck o))
                          λ contents _.
                            >>=-ne-stuck (decode_stored_value_text contents limit) _
                              (decode_stored_value-ne-stuck contents limit).1
                              λ stored _.
                                >>=-ne-stuck (parse_serialized stored) _
                                  (parse_serialized-ne-stuck stored) (λ parsed _ p. cc))
                  (λ _ p. cc)
