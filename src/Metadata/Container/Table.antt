-- ===== src/Metadata/Container/Table.antt =====
-- `read_container_entry` of src/metadata/container.rs: the table of a container.
use open_sdbl.Prelude.{
  ℕ, zero, suc, ◌%◌, not, List, [], ◌∷◌, Option, none, some, ltb, ◌==◌, if◌then◌else◌, length, take,
  drop,
}
use open_sdbl.Prelude.Result.{Result, ok, err, ◌>>=◌}
use open_sdbl.Metadata.Error.{MetadataError}
use open_sdbl.Lexer.Lookup.{chars_eq}
use open_sdbl.Metadata.Container.Utf16.{utf16_name}
use open_sdbl.Metadata.Container.Blocks.{malformed, document, le_bytes}

-- `chunks_exact(12)`
unfoldable pub chunks_exact : ℕ → List ℕ → List (List ℕ)
chunks_exact zero bytes = []
chunks_exact (suc fuel) bytes =
    let more = chunks_exact fuel (drop 12 bytes) in
    if ltb (length bytes) 12 then [] else take 12 bytes ∷ more

-- `i32::MAX.to_le_bytes()`
abbrev pub marker : List ℕ
marker = 0xff ∷ (0xff ∷ (0xff ∷ (0x7f ∷ [])))

-- The name that the description of an entry holds
abbrev pub described_name : List ℕ → Result MetadataError (List ℕ)
described_name description =
    if ltb (length description) 20
    then err (malformed "короткое описание файла")
    else utf16_name (drop 20 description)

unfoldable pub entry_name : List ℕ → ℕ → List ℕ → Result MetadataError (List ℕ)
entry_name container limit entry =
    if not (chars_eq (drop 8 entry) marker)
    then err (malformed "неверный маркер оглавления контейнера")
    else (document container (le_bytes (take 4 entry)) 0 limit >>= described_name)

-- `document(..).map(Some)`
abbrev pub entry_data : List ℕ → ℕ → List ℕ → Result MetadataError (Option (List ℕ))
entry_data container limit entry =
    document container (le_bytes (take 4 (drop 4 entry))) 0 limit >>= λ bytes. ok (some bytes)

-- The loop over the table
unfoldable pub find_entry :
    List ℕ → List ℕ → ℕ → List (List ℕ) → Result MetadataError (Option (List ℕ))
find_entry container wanted limit [] = ok none
find_entry container wanted limit (entry ∷ entries) =
    let more = find_entry container wanted limit entries in
    entry_name container limit entry >>= λ name.
    if chars_eq name wanted then entry_data container limit entry else more

abbrev pub search_table : List ℕ → List ℕ → ℕ → List ℕ → Result MetadataError (Option (List ℕ))
search_table container wanted limit toc =
    if not (length toc % 12 == 0)
    then err (malformed "неполная запись оглавления контейнера")
    else find_entry container wanted limit (chunks_exact (length toc) toc)

unfoldable pub read_container_entry : List ℕ → List ℕ → ℕ → Result MetadataError (Option (List ℕ))
read_container_entry container wanted document_limit =
    if ltb (length container) 16
    then err (malformed "короткий заголовок")
    else (document container 16 0x200 document_limit
        >>= search_table container wanted document_limit)
