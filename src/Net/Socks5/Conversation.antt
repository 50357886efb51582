-- ===== src/Net/Socks5/Conversation.antt =====
-- What `connect_socks5` of crates/open-sdbl-db/src/net/socks5.rs sends, by what the proxy answers.
use open_sdbl.Prelude.{
  ℕ, ◌+◌, ◌≤◌, ◌≡◌, refl, sym, ap, subst, ◌∙◌, not, ◌⊎◌, inl, inr, List, [], ◌∷◌, ◌++◌, Option,
  none, some, ltb, ◌==◌, if_elim, length, get_or, arith,
}
use open_sdbl.Metadata.Utf8.Encode.{as_bytes}
use open_sdbl.Net.Socks5.Wire.{
  Wire, Talk, write_all, read_exact, Leaves, gave, failed, >>=-Leaves, write_all-Leaves,
  read_exact-Leaves,
}
use open_sdbl.Net.Socks5.Negotiation.{
  greeting, credentials, authenticated, send_credentials, authenticate, unauthenticated, select,
}

-- The request of RFC 1929: version, and both texts behind their lengths, which fit in a byte.
pub data Presented (name secret : List ℕ) : List ℕ → Type 0 where
  presented :
      length (as_bytes name) ≤ 255
      → length (as_bytes secret) ≤ 255
      → Presented name secret (
          1
          ∷ (length (as_bytes name)
              ∷ (as_bytes name ++ (length (as_bytes secret) ∷ as_bytes secret))))

-- The method is settled: what the proxy answered so far, and what was sent.
pub data Settled (username password : Option (List ℕ)) : List ℕ → List (List ℕ) → Type 0 where
  open_access :
      username ≡ none → Settled username password (5 ∷ (0 ∷ [])) ((5 ∷ (1 ∷ (0 ∷ []))) ∷ [])
  granted :
      {name secret shown : List ℕ}
      → username ≡ some name
      → password ≡ some secret
      → Presented name secret shown
      → Settled username password (5 ∷ (2 ∷ (1 ∷ (0 ∷ [])))) ((5 ∷ (1 ∷ (2 ∷ []))) ∷ (shown ∷ []))

-- The writes of a conversation, by all that the proxy sends. A greeting names its version, a count
-- of 1 and the only method that it offers: 2 with a user, 0 without. The credentials go out only where a
-- user is configured and the proxy selected them, and the request only behind a settled method.
pub data Transcript (username password : Option (List ℕ)) (request incoming : List ℕ)
    : List (List ℕ) → Type 0 where
  greeted_open :
      username ≡ none → Transcript username password request incoming ((5 ∷ (1 ∷ (0 ∷ []))) ∷ [])
  greeted_as :
      {name : List ℕ}
      → username ≡ some name
      → Transcript username password request incoming ((5 ∷ (1 ∷ (2 ∷ []))) ∷ [])
  identified :
      {name secret shown : List ℕ} (rest : List ℕ)
      → username ≡ some name
      → password ≡ some secret
      → Presented name secret shown
      → incoming ≡ 5 ∷ (2 ∷ rest)
      → Transcript username password request incoming ((5 ∷ (1 ∷ (2 ∷ []))) ∷ (shown ∷ []))
  requested :
      {sent : List (List ℕ)} (answers rest : List ℕ)
      → Settled username password answers sent
      → incoming ≡ answers ++ rest
      → Transcript username password request incoming (sent ++ request ∷ [])

-- A reply that opens the connection, with the address that the proxy bound
pub data Reply : List ℕ → Type 0 where
  bound_v4 : (rest : List ℕ) → length rest ≡ 6 → Reply (5 ∷ (0 ∷ (0 ∷ (1 ∷ rest))))
  bound_domain :
      (n : ℕ) (rest : List ℕ) → length rest ≡ n + 2 → Reply (5 ∷ (0 ∷ (0 ∷ (3 ∷ (n ∷ rest)))))
  bound_v6 : (rest : List ℕ) → length rest ≡ 18 → Reply (5 ∷ (0 ∷ (0 ∷ (4 ∷ rest))))

pub record Opened (username password : Option (List ℕ)) (request incoming : List ℕ) (w : Wire)
    : Type 0 where
  pub answers : List ℕ
  pub reply : List ℕ
  pub settled_sent : List (List ℕ)
  pub settled : Settled username password answers settled_sent
  pub replied : Reply reply
  pub exactly : incoming ≡ answers ++ (reply ++ w.incoming)
  pub writes : w.sent ≡ settled_sent ++ request ∷ []

two_bytes : (bytes : List ℕ) → length bytes ≡ 2 → bytes ≡ get_or bytes 0 0 ∷ (get_or bytes 1 0 ∷ [])
two_bytes [] h = absurd (omega arith)
two_bytes (a ∷ []) h = absurd (omega arith)
two_bytes (a ∷ (b ∷ [])) h = refl
two_bytes (a ∷ (b ∷ (c ∷ cs))) h = absurd (omega arith)

module _ (username password : Option (List ℕ)) (incoming : List ℕ) where
  -- The method is settled, and the connection stands behind the proxy's answers.
  unfoldable pub SettledAt : Unit {0} → Wire → Type 0
  SettledAt u w =
      (answers : List ℕ) × Settled username password answers w.sent
      × (incoming ≡ answers ++ w.incoming)

  -- The proxy selected the credentials, which were there to send.
  abbrev Named : List ℕ → List ℕ → Type 0
  Named name secret =
      (username ≡ some name)
      × (password ≡ some secret)
      × Presented name secret (credentials name secret)

  abbrev Identified : List (List ℕ) → Type 0
  Identified sent =
      (name : List ℕ) × (secret : List ℕ) × (rest : List ℕ) × (incoming ≡ 5 ∷ (2 ∷ rest))
      × (sent ≡ greeting username ∷ (credentials name secret ∷ []))
      × Named name secret

  unfoldable pub Early : Wire → Type 0
  Early w = (w.sent ≡ greeting username ∷ []) ⊎ Identified w.sent

  authenticated-Leaves :
      (name secret response : List ℕ) (w : Wire)
      → Named name secret
      → length response ≡ 2
      → incoming ≡ 5 ∷ (2 ∷ (response ++ w.incoming))
      → w.sent ≡ greeting username ∷ (credentials name secret ∷ [])
      → Leaves SettledAt Early (authenticated response w)
  unfolding SettledAt Early
  authenticated-Leaves name secret response w (u, p, shown) size e s =
      let early : Early w = inr (name, secret, response ++ w.incoming, e, s, (u, p, shown)) in
      let sent = s ∙ ap (λ n. greeting n ∷ (credentials name secret ∷ [])) u in
      let P : Talk (Unit {0}) → Type 0 = λ m. Leaves SettledAt Early (m w) in
      if_elim P (get_or response 0 0 == 0x01) _ _
        (λ e0.
          if_elim P (get_or response 1 0 == 0x00) _ _
            (λ e1.
              let r0 : get_or response 0 0 ≡ 1 = ground arith in
              let r1 : get_or response 1 0 ≡ 0 = ground arith in
              let two = two_bytes response size in
              let shape : response ≡ 1 ∷ (0 ∷ []) = cc in
              gave (
                5 ∷ (2 ∷ (1 ∷ (0 ∷ []))),
                subst (Settled username password (5 ∷ (2 ∷ (1 ∷ (0 ∷ []))))) (sym sent)
                    (granted u p shown),
                e ∙ ap (λ r. 5 ∷ (2 ∷ (r ++ w.incoming))) shape,
              ))
            (λ _. failed early))
        (λ _. failed early)

  send_credentials-Leaves :
      (name secret : List ℕ) (w : Wire)
      → Named name secret
      → incoming ≡ 5 ∷ (2 ∷ w.incoming)
      → w.sent ≡ greeting username ∷ []
      → Leaves SettledAt Early (send_credentials name secret w)
  unfolding Early
  send_credentials-Leaves name secret w named e s =
      let both = greeting username ∷ (credentials name secret ∷ []) in
      let now : w.sent ++ credentials name secret ∷ [] ≡ both =
        ap (λ l. l ++ credentials name secret ∷ []) s in
      let early : (w' : Wire) → w'.sent ≡ both → Early w' =
        λ w' s'. inr (name, secret, w.incoming, e, s', named) in
      >>=-Leaves (write_all (credentials name secret)) _ w
        (write_all-Leaves (credentials name secret) w)
        (λ w' sent. early w' (ap (λ (x : Wire). x.sent) sent ∙ now))
        λ _ w' sent.
          let s' = ap (λ (x : Wire). x.sent) sent ∙ now in
          let i' = ap (λ (x : Wire). x.incoming) sent in
          >>=-Leaves (read_exact 2) _ w' (read_exact-Leaves 2 w')
            (λ w'' same. early w'' (same ∙ s'))
            λ response w'' (read, size, same).
              authenticated-Leaves name secret response w'' named size
                (e ∙ ap (λ l. 5 ∷ (2 ∷ l)) (sym i' ∙ read)) (same ∙ s')

  authenticate-Leaves :
      (name secret : Option (List ℕ)) (w : Wire)
      → username ≡ name
      → password ≡ secret
      → incoming ≡ 5 ∷ (2 ∷ w.incoming)
      → w.sent ≡ greeting username ∷ []
      → Leaves SettledAt Early (authenticate name secret w)
  unfolding Early
  authenticate-Leaves none secret w u p e s = failed (inl s)
  authenticate-Leaves (some name) none w u p e s = failed (inl s)
  authenticate-Leaves (some name) (some secret) w u p e s =
      let P : Talk (Unit {0}) → Type 0 = λ m. Leaves SettledAt Early (m w) in
      if_elim P (ltb 255 (length (as_bytes name))) _ _ (λ _. failed (inl s))
        λ short_name.
          if_elim P (ltb 255 (length (as_bytes secret))) _ _ (λ _. failed (inl s))
            λ short_secret.
              let shown = presented (ground arith) (ground arith) in
              send_credentials-Leaves name secret w (u, p, shown) e s

  unauthenticated-Leaves :
      (name : Option (List ℕ)) (w : Wire)
      → username ≡ name
      → incoming ≡ 5 ∷ (0 ∷ w.incoming)
      → w.sent ≡ greeting username ∷ []
      → Leaves SettledAt Early (unauthenticated name w)
  unfolding SettledAt Early
  unauthenticated-Leaves none w u e s =
      let sent = s ∙ ap (λ n. greeting n ∷ []) u in
      gave (
        5 ∷ (0 ∷ []),
        subst (Settled username password (5 ∷ (0 ∷ []))) (sym sent) (open_access u),
        e,
      )
  unauthenticated-Leaves (some name) w u e s = failed (inl s)

  pub select-Leaves :
      (method : List ℕ) (w : Wire)
      → length method ≡ 2
      → incoming ≡ method ++ w.incoming
      → w.sent ≡ greeting username ∷ []
      → Leaves SettledAt Early (select username password method w)
  unfolding select Early
  select-Leaves method w size e s =
      let P : Talk (Unit {0}) → Type 0 = λ m. Leaves SettledAt Early (m w) in
      let two = two_bytes method size in
      let selected = get_or method 1 0 in
      if_elim P (not (get_or method 0 0 == 0x05)) _ _ (λ _. failed (inl s))
        λ version.
          let five : get_or method 0 0 ≡ 5 = ground arith in
          let from : (n : ℕ) → selected ≡ n → incoming ≡ 5 ∷ (n ∷ w.incoming) = λ n same.
            (let shape : method ≡ 5 ∷ (n ∷ []) = cc in e ∙ ap (λ l. l ++ w.incoming) shape) in
          if_elim P (selected == 0x00) _ _
            (λ zero_method. unauthenticated-Leaves username w refl (from 0 (ground arith)) s)
            λ _.
              if_elim P (selected == 0x02) _ _
                (λ two_method.
                  authenticate-Leaves username password w refl refl (from 2 (ground arith)) s)
                λ _. if_elim P (selected == 0xff) _ _ (λ _. failed (inl s)) (λ _. failed (inl s))
