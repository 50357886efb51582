-- ===== src/Names/Key.antt =====
-- The key of src/names.rs against its comparison.
use open_sdbl.Prelude.{
  ℕ, ◌≡◌, ◌↔◌, refl, sym, ap, ◌∙◌, true, ◌&&◌, List, [], ◌∷◌, ◌++◌, ltb, ltb→lt, if_elim, arith,
}
use open_sdbl.Lexer.Lookup.{chars_eq, chars_eq-true, chars_eq_refl}
use open_sdbl.Metadata.Guid.{lowercase_byte, lowercase}
use open_sdbl.Names.{CaseTable, is_ascii, to_lower, names_equal, folded_name}

module _ (table : CaseTable) where
  to_lower-ascii : (cs : List ℕ) → is_ascii cs ≡ true → lowercase cs ≡ to_lower table cs
  to_lower-ascii [] h = refl
  to_lower-ascii (c ∷ cs) h =
      let below : ltb c 0x80 ≡ true = ground arith in
      let rest : is_ascii cs ≡ true = ground arith in
      ap (λ l. lowercase_byte c ∷ l) (to_lower-ascii cs rest)
      ∙ ap (λ l. l ++ to_lower table cs) (sym (table.to_lowercase_ascii c (ltb→lt c 0x80 below)))

  folded_name-to_lower : (cs : List ℕ) → folded_name table cs ≡ to_lower table cs
  unfolding folded_name
  folded_name-to_lower cs =
      if_elim (λ l. l ≡ to_lower table cs) (is_ascii cs) (lowercase cs) (to_lower table cs)
        (to_lower-ascii cs) (λ _. refl)

  names_equal-chars_eq :
      (left right : List ℕ)
      → names_equal table left right ≡ chars_eq (to_lower table left) (to_lower table right)
  unfolding names_equal
  names_equal-chars_eq left right =
      if_elim (λ b. b ≡ chars_eq (to_lower table left) (to_lower table right))
        (is_ascii left && is_ascii right) (chars_eq (lowercase left) (lowercase right))
        (chars_eq (to_lower table left) (to_lower table right))
        (λ both.
          let l = to_lower-ascii left (ground arith) in
          let r = to_lower-ascii right (ground arith) in
          ap (λ x. chars_eq x (lowercase right)) l ∙ ap (chars_eq (to_lower table left)) r)
        (λ _. refl)

  pub names_equal-key :
      (left right : List ℕ)
      → names_equal table left right ≡ chars_eq (folded_name table left) (folded_name table right)
  names_equal-key left right =
      names_equal-chars_eq left right
      ∙ ap (λ x. chars_eq x (to_lower table right)) (sym (folded_name-to_lower left))
      ∙ ap (chars_eq (folded_name table left)) (sym (folded_name-to_lower right))

  -- Two names are equal exactly when their keys are, whether or not they are ASCII.
  pub names_equal-folded_name :
      (left right : List ℕ)
      → (names_equal table left right ≡ true) ↔ (folded_name table left ≡ folded_name table right)
  names_equal-folded_name left right =
      let equal = names_equal-chars_eq left right in
      let l = folded_name-to_lower left in
      let r = folded_name-to_lower right in
      (
        λ h. l ∙ chars_eq-true (to_lower table left) (to_lower table right) (sym equal ∙ h) ∙ sym r,
        λ e.
            equal
            ∙ ap (λ x. chars_eq x (to_lower table right)) (sym l ∙ e ∙ r)
            ∙ chars_eq_refl (to_lower table right),
      )
