-- ===== src/Metadata/Container/Records.antt =====
-- The records of the table that src/metadata/container.rs reads, and what one of them says.
use open_sdbl.Prelude.{
  ℕ, zero, suc, ◌-◌, ◌*◌, ◌≤◌, ◌≡◌, refl, sym, ap, ◌∙◌, not, List, [], ◌∷◌, ◌++◌, ltb, if_elim,
  length, take, drop, length-drop, length-take, take-append-drop, drop-drop, All, arith,
}
use mathlib.Core.List.{flatten}
use open_sdbl.Prelude.Result.{ok, err, ◌>>=◌, >>=-eq-ok}
use open_sdbl.Lexer.Lookup.{chars_eq, chars_eq-true}
use open_sdbl.Metadata.Container.Table.{chunks_exact, marker, described_name, entry_name}
use open_sdbl.Metadata.Container.Blocks.{malformed, document, le_bytes}
use open_sdbl.Metadata.Container.Utf16.{utf16_name}

-- The records of a table of whole records are its bytes, twelve in each.
pub chunks_exact-flatten :
    (fuel count : ℕ) (bytes : List ℕ)
    → length bytes ≤ fuel
    → length bytes ≡ 12 * count
    → (flatten (chunks_exact fuel bytes) ≡ bytes)
      × All (λ entry. length entry ≡ 12) (chunks_exact fuel bytes)
unfolding chunks_exact flatten
chunks_exact-flatten zero count [] h e = (refl, tt)
chunks_exact-flatten zero count (b ∷ bs) h e = absurd (omega arith)
chunks_exact-flatten (suc fuel) count bytes h e =
    let more = chunks_exact fuel (drop 12 bytes) in
    let size = length-drop 12 bytes in
    if_elim (λ l. (flatten l ≡ bytes) × All (λ entry. length entry ≡ 12) l) (ltb (length bytes) 12)
      [] (take 12 bytes ∷ more)
      (λ short. let few : length bytes ≡ 0 = ground arith in (sym (no_bytes bytes few), tt))
      (λ long.
        let many : 12 ≤ length bytes = ground arith in
        let (same, whole) =
          chunks_exact-flatten fuel (count - 1) (drop 12 bytes) (omega arith) (omega arith) in
        (
          ap (λ l. take 12 bytes ++ l) same ∙ take-append-drop 12 bytes,
          (omega (arith, length-take 12 bytes), whole),
        ))
  where
    no_bytes : (bs : List ℕ) → length bs ≡ 0 → bs ≡ []
    no_bytes [] p = refl
    no_bytes (b ∷ bs) p = absurd (omega arith)

-- A record of the table: the address of the description and that of the data in four bytes each, and
-- the largest signed 32-bit number. The name stands behind twenty bytes of the description.
pub record Describes (container : List ℕ) (limit : ℕ) (entry name : List ℕ) (address : ℕ)
    : Type 0 where
  pub described_at : List ℕ
  pub data_at : List ℕ
  pub description : List ℕ
  pub described_four : length described_at ≡ 4
  pub data_four : length data_at ≡ 4
  pub layout : entry ≡ described_at ++ (data_at ++ (0xff ∷ (0xff ∷ (0xff ∷ (0x7f ∷ [])))))
  pub described : document container (le_bytes described_at) 0 limit ≡ ok description
  pub long : 20 ≤ length description
  pub named : utf16_name (drop 20 description) ≡ ok name
  pub addressed : le_bytes data_at ≡ address

module _ (container : List ℕ) (limit : ℕ) (entry name : List ℕ) where
  -- The three fields of a record are all of it.
  fields : entry ≡ take 4 entry ++ (take 4 (drop 4 entry) ++ drop 8 entry)
  fields =
      let rest = take-append-drop 4 (drop 4 entry) in
      let behind = drop-drop 4 4 entry in
      sym (
        ap (λ l. take 4 entry ++ (take 4 (drop 4 entry) ++ l)) (sym behind)
        ∙ ap (λ l. take 4 entry ++ l) rest
        ∙ take-append-drop 4 entry)

  described_name-eq-ok :
      (description : List ℕ)
      → described_name description ≡ ok name
      → (20 ≤ length description) × (utf16_name (drop 20 description) ≡ ok name)
  described_name-eq-ok description e =
      if_elim
        (λ r.
          r ≡ ok name → (20 ≤ length description) × (utf16_name (drop 20 description) ≡ ok name))
        (ltb (length description) 20) (err (malformed "короткое описание файла"))
        (utf16_name (drop 20 description)) (λ _ e'. cc) (λ long e'. (ground arith, e')) e

  pub entry_name-Describes :
      length entry ≡ 12
      → entry_name container limit entry ≡ ok name
      → Describes container limit entry name (le_bytes (take 4 (drop 4 entry)))
  unfolding entry_name
  entry_name-Describes size e =
      let described_document = document container (le_bytes (take 4 entry)) 0 limit in
      if_elim
        (λ r. r ≡ ok name → Describes container limit entry name (le_bytes (take 4 (drop 4 entry))))
        (not (chars_eq (drop 8 entry) marker))
        (err (malformed "неверный маркер оглавления контейнера"))
        (described_document >>= described_name) (λ _ e'. cc)
        (λ marked e'.
          let ends = chars_eq-true (drop 8 entry) marker (ground arith) in
          let (description, read, named) = >>=-eq-ok described_document described_name e' in
          let (long, shown) = described_name-eq-ok description named in
          record {
            described_at = take 4 entry;
            data_at = take 4 (drop 4 entry);
            description = description;
            described_four = omega (arith, length-take 4 entry);
            data_four = omega (arith, length-take 4 (drop 4 entry), length-drop 4 entry);
            layout = fields ∙ ap (λ l. take 4 entry ++ (take 4 (drop 4 entry) ++ l)) ends;
            described = read;
            long = long;
            named = shown;
            addressed = refl;
          })
        e
