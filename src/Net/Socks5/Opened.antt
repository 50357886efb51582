-- ===== src/Net/Socks5/Opened.antt =====
-- The reply that opens a connection in crates/open-sdbl-db/src/net/socks5.rs, and the negotiation as
-- a whole.
use open_sdbl.Prelude.{
  ℕ, ◌+◌, ◌≡◌, refl, sym, ap, ◌∙◌, not, ◌⊎◌, inl, inr, List, [], ◌∷◌, ◌++◌, ◌==◌, if_elim, length,
  get_or, arith,
}
use open_sdbl.Net.Socks5.Wire.{
  Wire, Talk, read_exact, Leaves, gave, failed, >>=-Leaves, read_exact-Leaves,
}
use open_sdbl.Net.Socks5.Negotiation.{
  check_reply, first_byte, bound_address_len, skip_address, read_reply,
}
use open_sdbl.Net.Socks5.Conversation.{Reply, bound_v4, bound_domain, bound_v6}

four_bytes :
    (bytes : List ℕ)
    → length bytes ≡ 4
    → bytes ≡ get_or bytes 0 0 ∷ (get_or bytes 1 0 ∷ (get_or bytes 2 0 ∷ (get_or bytes 3 0 ∷ [])))
four_bytes [] h = absurd (omega arith)
four_bytes (a ∷ []) h = absurd (omega arith)
four_bytes (a ∷ (b ∷ [])) h = absurd (omega arith)
four_bytes (a ∷ (b ∷ (c ∷ []))) h = absurd (omega arith)
four_bytes (a ∷ (b ∷ (c ∷ (d ∷ [])))) h = refl
four_bytes (a ∷ (b ∷ (c ∷ (d ∷ (e ∷ es))))) h = absurd (omega arith)

one_byte : (bytes : List ℕ) → length bytes ≡ 1 → bytes ≡ get_or bytes 0 0 ∷ []
one_byte [] h = absurd (omega arith)
one_byte (a ∷ []) h = refl
one_byte (a ∷ (b ∷ bs)) h = absurd (omega arith)

check_reply-Leaves :
    (response : List ℕ) (w : Wire)
    → length response ≡ 4
    → Leaves
        (λ _ w'. (w' ≡ w) × (response ≡ 5 ∷ (0 ∷ (0 ∷ (get_or response 3 0 ∷ [])))))
        (λ w'. w' ≡ w)
        (check_reply response w)
unfolding check_reply
check_reply-Leaves response w size =
    let R : Unit {0} → Wire → Type 0 =
      λ _ w'. (w' ≡ w) × (response ≡ 5 ∷ (0 ∷ (0 ∷ (get_or response 3 0 ∷ [])))) in
    let P : Talk (Unit {0}) → Type 0 = λ m. Leaves R (λ w'. w' ≡ w) (m w) in
    let shape = four_bytes response size in
    if_elim P (not (get_or response 0 0 == 0x05)) _ _ (λ _. failed refl)
      λ version.
        if_elim P (not (get_or response 1 0 == 0x00)) _ _ (λ _. failed refl)
          λ success.
            if_elim P (not (get_or response 2 0 == 0x00)) _ _ (λ _. failed refl)
              λ reserved.
                let r0 : get_or response 0 0 ≡ 5 = ground arith in
                let r1 : get_or response 1 0 ≡ 0 = ground arith in
                let r2 : get_or response 2 0 ≡ 0 = ground arith in gave (refl, cc)

-- The length of the bound address, and what the connection still holds behind it
abbrev Bound : ℕ → List ℕ → ℕ → List ℕ → Type 0
Bound address_type incoming len left =
    ((address_type ≡ 1) × (len ≡ 4) × (left ≡ incoming))
    ⊎ (((address_type ≡ 3) × (incoming ≡ len ∷ left))
        ⊎ ((address_type ≡ 4) × (len ≡ 16) × (left ≡ incoming)))

bound_address_len-Leaves :
    (address_type : ℕ) (w : Wire)
    → Leaves
        (λ len w'. Bound address_type w.incoming len w'.incoming × (w'.sent ≡ w.sent))
        (λ w'. w'.sent ≡ w.sent)
        (bound_address_len address_type w)
unfolding bound_address_len
bound_address_len-Leaves address_type w =
    let R : ℕ → Wire → Type 0 =
      λ len w'. Bound address_type w.incoming len w'.incoming × (w'.sent ≡ w.sent) in
    let E : Wire → Type 0 = λ w'. w'.sent ≡ w.sent in
    let P : Talk ℕ → Type 0 = λ m. Leaves R E (m w) in
    if_elim P (address_type == 0x01) _ _
      (λ e. let one : address_type ≡ 1 = ground arith in gave (inl (one, refl, refl), refl))
      λ _.
        if_elim P (address_type == 0x03) _ _
          (λ e.
            let three : address_type ≡ 3 = ground arith in
            >>=-Leaves (read_exact 1) first_byte w (read_exact-Leaves 1 w) (λ w' same. same)
              λ bytes w' (read, size, same).
                gave (
                  inr (inl (three, read ∙ ap (λ l. l ++ w'.incoming) (one_byte bytes size))),
                  same,
                ))
          λ _.
            if_elim P (address_type == 0x04) _ _
              (λ e.
                let four : address_type ≡ 4 = ground arith in
                gave (inr (inr (four, refl, refl)), refl))
              λ _. failed refl

-- A whole reply was read, and nothing more.
abbrev pub Replied : List ℕ → List (List ℕ) → Wire → Type 0
Replied start sent w =
    (reply : List ℕ) × Reply reply × (start ≡ reply ++ w.incoming) × (w.sent ≡ sent)

Reply-intro :
    (response start incoming left rest bytes : List ℕ) (len : ℕ)
    → response ≡ 5 ∷ (0 ∷ (0 ∷ (get_or response 3 0 ∷ [])))
    → start ≡ response ++ incoming
    → Bound (get_or response 3 0) incoming len left
    → length bytes ≡ len + 2
    → left ≡ bytes ++ rest
    → (reply : List ℕ) × Reply reply × (start ≡ reply ++ rest)
Reply-intro response start incoming left rest bytes len shape e (inl (t, l, same)) size read =
    let front : response ≡ 5 ∷ (0 ∷ (0 ∷ (1 ∷ []))) = cc in
    (
      5 ∷ (0 ∷ (0 ∷ (1 ∷ bytes))),
      bound_v4 bytes (omega arith),
      e ∙ ap (λ r. r ++ incoming) front ∙ ap (λ r. 5 ∷ (0 ∷ (0 ∷ (1 ∷ r)))) (sym same ∙ read),
    )
Reply-intro response start incoming left rest bytes len shape e (inr (inl (t, same))) size read =
    let front : response ≡ 5 ∷ (0 ∷ (0 ∷ (3 ∷ []))) = cc in
    (
      5 ∷ (0 ∷ (0 ∷ (3 ∷ (len ∷ bytes)))),
      bound_domain len bytes size,
      e
          ∙ ap (λ r. r ++ incoming) front
          ∙ ap (λ r. 5 ∷ (0 ∷ (0 ∷ (3 ∷ r)))) (same ∙ ap (λ r. len ∷ r) read),
    )
Reply-intro response start incoming left rest bytes len shape e (inr (inr (t, l, same))) size read =
    let front : response ≡ 5 ∷ (0 ∷ (0 ∷ (4 ∷ []))) = cc in
    (
      5 ∷ (0 ∷ (0 ∷ (4 ∷ bytes))),
      bound_v6 bytes (omega arith),
      e ∙ ap (λ r. r ++ incoming) front ∙ ap (λ r. 5 ∷ (0 ∷ (0 ∷ (4 ∷ r)))) (sym same ∙ read),
    )

pub read_reply-Leaves :
    (response start : List ℕ) (w : Wire)
    → length response ≡ 4
    → start ≡ response ++ w.incoming
    → Leaves (λ _ w'. Replied start w.sent w') (λ w'. w'.sent ≡ w.sent) (read_reply response w)
read_reply-Leaves response start w size e =
    >>=-Leaves (check_reply response) _ w (check_reply-Leaves response w size)
      (λ w' same. ap (λ (x : Wire). x.sent) same)
      λ _ w' (same, shape).
        let sent = ap (λ (x : Wire). x.sent) same in
        let start' = e ∙ ap (λ (x : Wire). response ++ x.incoming) (sym same) in
        >>=-Leaves (bound_address_len (get_or response 3 0)) skip_address w'
          (bound_address_len-Leaves (get_or response 3 0) w') (λ w'' kept. kept ∙ sent)
          λ len w'' (bound, kept).
            >>=-Leaves (read_exact (len + 2)) _ w'' (read_exact-Leaves (len + 2) w'')
              (λ v kept'. kept' ∙ kept ∙ sent)
              λ bytes v (read, long, kept').
                let (reply, is, all) =
                  Reply-intro response start w'.incoming w''.incoming v.incoming bytes len shape
                    start' bound long read in
                gave (reply, is, all, kept' ∙ kept ∙ sent)
