-- ===== src/Metadata/Guid/Tests.antt =====
-- The GUID of the unit tests of src/metadata/guid.rs.
use open_sdbl.Prelude.{ℕ, ◌≡◌, refl, ◌↔◌, List, [], ◌∷◌, ◌++◌, codes, length}
use open_sdbl.Prelude.Result.{ok}
use open_sdbl.Lexer.Chars.{is_ascii_hexdigit}
use open_sdbl.Metadata.Guid.{
  Guid, valid_from, from_str, bytes_from, to_bytes, to_1c_bytes, physical_order,
}
use open_sdbl.Metadata.Guid.Canonical.{to_bytes-length}
use open_sdbl.Metadata.Guid.Shape.{groups, Canonizes, from_str-Canonizes}
use open_sdbl.Metadata.Guid.Physical.{physical_order-fields}

abbrev written : List ℕ
written = codes "A3FE6537-d787-40f7-8a06-419d2f0c1cfd"

abbrev read_guid : Guid
read_guid = record { text = codes "a3fe6537-d787-40f7-8a06-419d2f0c1cfd" }

read_run : from_str written ≡ ok read_guid
unfolding from_str valid_from is_ascii_hexdigit
read_run = refl

physical_run :
    to_1c_bytes read_guid
    ≡ ok (
        0x8a
        ∷ (0x06
            ∷ (0x41
                ∷ (0x9d
                    ∷ (0x2f
                        ∷ (0x0c
                            ∷ (0x1c
                                ∷ (0xfd
                                    ∷ (0x40
                                        ∷ (0xf7
                                            ∷ (0xd7
                                                ∷ (0x87
                                                    ∷ (0xa3
                                                        ∷ (0xfe ∷ (0x65 ∷ (0x37 ∷ []))))))))))))))))
unfolding to_1c_bytes to_bytes bytes_from
physical_run = refl

from_str-Canonizes_example :
    (from_str written ≡ ok read_guid)
    ↔ (Canonizes groups written read_guid.text × (from_str read_guid.text ≡ ok read_guid))
from_str-Canonizes_example = from_str-Canonizes written read_guid

to_bytes-length_example : (bytes : List ℕ) × (to_bytes read_guid ≡ ok bytes) × (length bytes ≡ 16)
to_bytes-length_example = to_bytes-length written read_guid read_run

abbrev fields_2 : List ℕ
fields_2 = 5 ∷ (6 ∷ [])

abbrev fields_4 : List ℕ
fields_4 = 1 ∷ (2 ∷ (3 ∷ (4 ∷ [])))

physical_order-fields_example :
    physical_order (fields_4 ++ (fields_2 ++ (fields_2 ++ (fields_2 ++ (fields_4 ++ fields_2)))))
    ≡ fields_2 ++ (fields_4 ++ fields_2) ++ fields_2 ++ fields_2 ++ fields_4
physical_order-fields_example =
    physical_order-fields fields_4 fields_2 fields_2 fields_2 (fields_4 ++ fields_2) refl refl refl
      refl refl
