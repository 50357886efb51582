-- ===== src/Metadata/Container/Ends.antt =====
-- The search in the table of src/metadata/container.rs ends.
use open_sdbl.Prelude.{
  ℕ, ◌*◌, ◌%◌, ◌≢◌, not, List, [], ◌∷◌, Option, none, some, ltb, ◌==◌, if_elim, length, take, drop,
}
use open_sdbl.Prelude.Result.{ok, err, stuck, ◌>>=◌, >>=-ne-stuck}
use open_sdbl.Lexer.Lookup.{chars_eq}
use open_sdbl.Metadata.Container.Table.{
  chunks_exact, marker, described_name, entry_name, entry_data, find_entry, search_table,
  read_container_entry,
}
use open_sdbl.Metadata.Container.Utf16.{
  from_utf16, decoded_name, utf16_name, units, terminator, name_end,
}
use open_sdbl.Metadata.Container.Blocks.{malformed, document, le_bytes}
use open_sdbl.Metadata.Container.Total.{document-ne-stuck}

module _ (container wanted : List ℕ) (limit : ℕ) where
  decoded_name-ne-stuck : (name : Option (List ℕ)) → decoded_name name ≢ stuck
  decoded_name-ne-stuck none p = cc
  decoded_name-ne-stuck (some name) p = cc

  described_name-ne-stuck : (description : List ℕ) → described_name description ≢ stuck
  unfolding utf16_name
  described_name-ne-stuck description =
      let name = drop 20 description in
      let end = name_end name (terminator (units name)) in
      if_elim (λ r. r ≢ stuck) (ltb (length description) 20)
        (err (malformed "короткое описание файла")) (utf16_name name) (λ _ p. cc)
        (λ _. decoded_name-ne-stuck (from_utf16 (units (take (end * 2) name))))

  find_entry-ne-stuck :
      (entries : List (List ℕ)) → find_entry container wanted limit entries ≢ stuck
  unfolding find_entry entry_name
  find_entry-ne-stuck [] = λ p. cc
  find_entry-ne-stuck (entry ∷ entries) =
      let read = document container (le_bytes (take 4 entry)) 0 limit in
      let data_document = document container (le_bytes (take 4 (drop 4 entry))) 0 limit in
      >>=-ne-stuck (entry_name container limit entry) _
        (if_elim (λ r. r ≢ stuck) (not (chars_eq (drop 8 entry) marker))
          (err (malformed "неверный маркер оглавления контейнера")) (read >>= described_name)
          (λ _ p. cc)
          (λ _.
            >>=-ne-stuck read described_name
              (document-ne-stuck container (le_bytes (take 4 entry)) 0 limit)
              (λ description _. described_name-ne-stuck description)))
        λ name _.
          if_elim (λ r. r ≢ stuck) (chars_eq name wanted) (entry_data container limit entry)
            (find_entry container wanted limit entries)
            (λ _.
              >>=-ne-stuck data_document (λ bytes. ok (some bytes))
                (document-ne-stuck container (le_bytes (take 4 (drop 4 entry))) 0 limit)
                (λ bytes _ p. cc))
            (λ _. find_entry-ne-stuck entries)

  -- Reading ends on every container: no chain of blocks is followed for ever.
  pub read_container_entry-ne-stuck : read_container_entry container wanted limit ≢ stuck
  unfolding read_container_entry
  read_container_entry-ne-stuck =
      let table = document container 16 0x200 limit in
      if_elim (λ r. r ≢ stuck) (ltb (length container) 16) (err (malformed "короткий заголовок"))
        (table >>= search_table container wanted limit) (λ _ p. cc)
        (λ _.
          >>=-ne-stuck table (search_table container wanted limit)
            (document-ne-stuck container 16 0x200 limit)
            (λ toc _.
              if_elim (λ r. r ≢ stuck) (not (length toc % 12 == 0))
                (err (malformed "неполная запись оглавления контейнера"))
                (find_entry container wanted limit (chunks_exact (length toc) toc)) (λ _ p. cc)
                (λ _. find_entry-ne-stuck (chunks_exact (length toc) toc))))
