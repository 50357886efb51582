-- ===== src/Metadata/Container/Entries.antt =====
-- What `read_container_entry` of src/metadata/container.rs finds in the table of a container.
use open_sdbl.Prelude.{
  ℕ, ◌/◌, ◌%◌, ◌≤◌, ◌≡◌, ◌≢◌, refl, sym, ap, subst, ◌∙◌, true, not, List, [], ◌∷◌, ◌++◌, Option,
  none, some, ltb, ◌==◌, if◌then◌else◌, if_elim, length, take, drop, All, arith,
}
use mathlib.Core.List.{flatten}
use open_sdbl.Prelude.Result.{ok, err, ◌>>=◌, >>=-eq-ok}
use open_sdbl.Lexer.Lookup.{chars_eq, chars_eq-true, chars_eq_refl}
use open_sdbl.Metadata.Container.Table.{
  chunks_exact, entry_name, entry_data, find_entry, search_table, read_container_entry,
}
use open_sdbl.Metadata.Container.Blocks.{malformed, document, le_bytes}
use open_sdbl.Metadata.Container.Pieces.{document-Pieces}
use open_sdbl.Metadata.Container.Records.{chunks_exact-flatten, Describes, entry_name-Describes}

module _ (container wanted : List ℕ) (limit : ℕ) where
  -- An entry whose name can be read and is another
  unfoldable pub Unnamed : List ℕ → Type 0
  Unnamed entry =
      (name : List ℕ) × (address : ℕ) × Describes container limit entry name address
      × (name ≢ wanted)

  -- The document that an entry of the wanted name points to
  unfoldable pub Holds : List ℕ → List ℕ → Type 0
  Holds entry bytes =
      (address : ℕ) × Describes container limit entry wanted address
      × (document container address 0 limit ≡ ok bytes)

  -- The document of the first entry of the name, or none where no entry has it.
  unfoldable pub Answers : List (List ℕ) → Option (List ℕ) → Type 0
  Answers entries none = All Unnamed entries
  Answers entries (some bytes) =
      (before : List (List ℕ)) × (entry : List ℕ) × (after : List (List ℕ)) × (entries
        ≡ before ++ entry ∷ after)
      × All Unnamed before
      × Holds entry bytes

  later-Answers :
      (entry : List ℕ) (entries : List (List ℕ)) (result : Option (List ℕ))
      → Unnamed entry
      → Answers entries result
      → Answers (entry ∷ entries) result
  unfolding Answers
  later-Answers entry entries none h k = (h, k)
  later-Answers entry entries (some bytes) h (before, found, after, e, ks, holds) =
      (entry ∷ before, found, after, ap (λ l. entry ∷ l) e, (h, ks), holds)

  entry_data-Answers :
      (entry : List ℕ) (entries : List (List ℕ)) (result : Option (List ℕ))
      → Describes container limit entry wanted (le_bytes (take 4 (drop 4 entry)))
      → entry_data container limit entry ≡ ok result
      → Answers (entry ∷ entries) result
  unfolding Answers Holds
  entry_data-Answers entry entries result named e =
      let data_document = document container (le_bytes (take 4 (drop 4 entry))) 0 limit in
      let (bytes, read, same) = >>=-eq-ok data_document (λ bytes. ok (some bytes)) e in
      let found : some bytes ≡ result = cc in
      subst (Answers (entry ∷ entries)) found ([], entry, entries, refl, tt, (_, named, read))

  find_entry-Answers :
      (entries : List (List ℕ)) (result : Option (List ℕ))
      → All (λ entry. length entry ≡ 12) entries
      → find_entry container wanted limit entries ≡ ok result
      → Answers entries result
  unfolding find_entry Answers Unnamed
  find_entry-Answers [] none w e = tt
  find_entry-Answers [] (some bytes) w e = cc
  find_entry-Answers (entry ∷ entries) result (whole, wholes) e =
      let more = find_entry container wanted limit entries in
      let (name, read, chosen) =
        >>=-eq-ok (entry_name container limit entry)
          (λ name. if chars_eq name wanted then entry_data container limit entry else more) e in
      let describes = entry_name-Describes container limit entry name whole read in
      if_elim (λ r. r ≡ ok result → Answers (entry ∷ entries) result) (chars_eq name wanted)
        (entry_data container limit entry) more
        (λ same e'.
          entry_data-Answers entry entries result
            (subst (λ n. Describes container limit entry n (le_bytes (take 4 (drop 4 entry))))
              (chars_eq-true name wanted same) describes)
            e')
        (λ other e'.
          let differs : name ≢ wanted = λ p.
            (let equal = subst (λ n. chars_eq n wanted ≡ true) (sym p) (chars_eq_refl wanted) in
              cc) in
          later-Answers entry entries result (name, _, describes, differs)
            (find_entry-Answers entries result wholes e'))
        chosen

  -- A container that is read has a table that is a sequence of entries of twelve bytes, and the
  -- answer is the document of the first entry of the wanted name, or that no entry has it. The
  -- entries before it end with the marker, and their names can be read. A name is that of the
  -- description at the entry's first address, and the document stands at its second.
  pub read_container_entry-Answers :
      (result : Option (List ℕ))
      → read_container_entry container wanted limit ≡ ok result
      → (entries : List (List ℕ)) × (document container 16 0x200 limit ≡ ok (flatten entries))
        × All (λ entry. length entry ≡ 12) entries
        × Answers entries result
  unfolding read_container_entry
  read_container_entry-Answers result =
      let table = document container 16 0x200 limit in
      let P : Type 0 =
        (entries : List (List ℕ)) × (table ≡ ok (flatten entries))
        × All (λ entry. length entry ≡ 12) entries
        × Answers entries result in
      if_elim (λ r. r ≡ ok result → P) (ltb (length container) 16)
        (err (malformed "короткий заголовок")) (table >>= search_table container wanted limit)
        (λ _ e. cc)
        (λ _ e.
          let (toc, read, searched) = >>=-eq-ok table (search_table container wanted limit) e in
          let entries = chunks_exact (length toc) toc in
          if_elim (λ r. r ≡ ok result → P) (not (length toc % 12 == 0))
            (err (malformed "неполная запись оглавления контейнера"))
            (find_entry container wanted limit entries) (λ _ e'. cc)
            (λ whole e'.
              let exact : length toc % 12 ≡ 0 = ground arith in
              let (same, wholes) =
                chunks_exact-flatten (length toc) (length toc / 12) toc (omega arith)
                  (omega arith) in
              (
                entries,
                read ∙ ap ok (sym same),
                wholes,
                find_entry-Answers entries result wholes e',
              ))
            searched)

  Answers-length :
      (entries : List (List ℕ)) (bytes : List ℕ)
      → Answers entries (some bytes)
      → length bytes ≤ limit
  unfolding Answers Holds
  Answers-length entries bytes (before, entry, after, e, ks, (address, describes, read)) =
      let (h, header, pieces, size, low) = document-Pieces container 0 limit address bytes read in
      low

  -- A document that is read from a container is no longer than the limit.
  pub read_container_entry-le-limit :
      (bytes : List ℕ)
      → read_container_entry container wanted limit ≡ ok (some bytes)
      → length bytes ≤ limit
  read_container_entry-le-limit bytes e =
      let (entries, read, wholes, answers) = read_container_entry-Answers (some bytes) e in
      Answers-length entries bytes answers
