-- ===== src/Metadata/Guid/Physical.antt =====
-- The physical order of a GUID's bytes, by the fields of its text.
use open_sdbl.Prelude.{
  ℕ, suc, ◌+◌, ◌≡◌, refl, sym, ap, subst, ◌∙◌, List, [], ◌∷◌, ◌++◌, append-nil, length, take, drop,
  take-append, arith,
}
use open_sdbl.Metadata.Guid.{physical_order}

drop-append_more : (k : ℕ) (xs ys : List ℕ) → drop (length xs + k) (xs ++ ys) ≡ drop k ys
drop-append_more k [] ys = ap (λ n. drop n ys) (omega arith)
drop-append_more k (x ∷ xs) ys =
    let next : length (x ∷ xs) + k ≡ suc (length xs + k) = omega arith in
    rw next (drop-append_more k xs ys)

past : (n k : ℕ) (xs ys : List ℕ) → length xs ≡ n → drop (n + k) (xs ++ ys) ≡ drop k ys
past n k xs ys e = subst (λ m. drop (m + k) (xs ++ ys) ≡ drop k ys) e (drop-append_more k xs ys)

first : (n : ℕ) (xs ys : List ℕ) → length xs ≡ n → take n (xs ++ ys) ≡ xs
first n xs ys e = subst (λ m. take m (xs ++ ys) ≡ xs) e (take-append xs ys)

-- If the fields of a GUID have 4, 2, 2, 2 and 6 bytes, then their order in the tables is the fourth,
-- the fifth, the third, the second and the first, each with its bytes in their order.
pub physical_order-fields :
    (a b c d e : List ℕ)
    → length a ≡ 4
    → length b ≡ 2
    → length c ≡ 2
    → length d ≡ 2
    → length e ≡ 6
    → physical_order (a ++ (b ++ (c ++ (d ++ e)))) ≡ d ++ e ++ c ++ b ++ a
physical_order-fields a b c d e la lb lc ld le =
    let whole = a ++ (b ++ (c ++ (d ++ e))) in
    let at4 : drop 4 whole ≡ b ++ (c ++ (d ++ e)) = past 4 0 a (b ++ (c ++ (d ++ e))) la in
    let at6 : drop 6 whole ≡ c ++ (d ++ e) =
      past 4 2 a (b ++ (c ++ (d ++ e))) la ∙ past 2 0 b (c ++ (d ++ e)) lb in
    let at8 : drop 8 whole ≡ d ++ e =
      past 4 4 a (b ++ (c ++ (d ++ e))) la
      ∙ past 2 2 b (c ++ (d ++ e)) lb
      ∙ past 2 0 c (d ++ e) lc in
    let at10 : drop 10 whole ≡ e =
      past 4 6 a (b ++ (c ++ (d ++ e))) la
      ∙ past 2 4 b (c ++ (d ++ e)) lb
      ∙ past 2 2 c (d ++ e) lc
      ∙ past 2 0 d e ld in
    let field1 : take 4 whole ≡ a = first 4 a (b ++ (c ++ (d ++ e))) la in
    let field2 : take 2 (drop 4 whole) ≡ b = ap (take 2) at4 ∙ first 2 b (c ++ (d ++ e)) lb in
    let field3 : take 2 (drop 6 whole) ≡ c = ap (take 2) at6 ∙ first 2 c (d ++ e) lc in
    let field4 : take 2 (drop 8 whole) ≡ d = ap (take 2) at8 ∙ first 2 d e ld in
    let field5 : take 6 (drop 10 whole) ≡ e =
      ap (take 6) at10 ∙ ap (take 6) (sym (append-nil e)) ∙ first 6 e [] le in
    rw (field1, field2, field3, field4, field5) refl
