-- ===== src/Names/Tests.antt =====
-- Names in two alphabets, with a table for ASCII and the Russian letters.
use open_sdbl.Prelude.{◌+◌, ◌≡◌, ◌↔◌, refl, true, [], ◌∷◌, codes, ◌&&◌, leb, if◌then◌else◌, arith}
use open_sdbl.Lexer.Lookup.{chars_eq}
use open_sdbl.Metadata.Guid.{lowercase_byte}
use open_sdbl.Names.{CaseTable, names_equal, folded_name}
use open_sdbl.Names.Key.{names_equal-folded_name}

abbrev russian_case : CaseTable
russian_case = record {
  to_lowercase = λ c. (if leb 0x410 c && leb c 0x42f then c + 32 else lowercase_byte c) ∷ [];
  to_lowercase_ascii = λ c h. ground arith;
}

equal_run : names_equal russian_case (codes "Код") (codes "КОД") ≡ true
unfolding names_equal chars_eq
equal_run = refl

names_equal-folded_name_example :
    (names_equal russian_case (codes "Код") (codes "КОД") ≡ true)
    ↔ (folded_name russian_case (codes "Код") ≡ folded_name russian_case (codes "КОД"))
names_equal-folded_name_example = names_equal-folded_name russian_case (codes "Код") (codes "КОД")
