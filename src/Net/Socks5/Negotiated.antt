-- ===== src/Net/Socks5/Negotiated.antt =====
-- What the negotiation of crates/open-sdbl-db/src/net/socks5.rs sends, and where it leaves the
-- connection.
use open_sdbl.Prelude.{
  ℕ, ◌≡◌, refl, sym, ap, subst, ◌∙◌, inl, inr, List, [], ◌∷◌, ◌++◌, Option, none, some,
}
use open_sdbl.Prelude.Result.{Result, ok, err, stuck}
use open_sdbl.Net.Socks5.Text.{IpParser}
use open_sdbl.Net.Socks5.Proxy.{Socks5Proxy}
use open_sdbl.Net.Socks5.Request.{IoError, socks5_connect_request}
use open_sdbl.Net.Socks5.Wire.{
  Wire, ◌>>=◌, write_all, read_exact, Leaves, >>=-Leaves, write_all-Leaves, read_exact-Leaves,
  Leaves-both, Leaves-ok, Leaves-weaken,
}
use open_sdbl.Net.Socks5.Negotiation.{
  greeting, credentials, select, read_reply, negotiate, connected, with_request, connect_socks5,
}
use open_sdbl.Net.Socks5.Conversation.{
  Transcript, greeted_open, greeted_as, identified, requested, Opened, SettledAt, Early,
  select-Leaves,
}
use open_sdbl.Net.Socks5.Opened.{read_reply-Leaves}

-- The greeting of the code is the one that the transcript expects.
greeting-Transcript :
    (username password : Option (List ℕ)) (request incoming : List ℕ)
    → Transcript username password request incoming (greeting username ∷ [])
greeting-Transcript none password request incoming = greeted_open refl
greeting-Transcript (some name) password request incoming = greeted_as refl

module _ (username password : Option (List ℕ)) (request : List ℕ) where
  Early-Transcript :
      (incoming : List ℕ) (w : Wire)
      → Early username password incoming w
      → Transcript username password request incoming w.sent
  unfolding Early
  Early-Transcript incoming w (inl s) =
      subst (Transcript username password request incoming) (sym s)
        (greeting-Transcript username password request incoming)
  Early-Transcript incoming w (inr (name, secret, rest, e, s, (u, p, shown))) =
      let sent = s ∙ ap (λ n. greeting n ∷ (credentials name secret ∷ [])) u in
      subst (Transcript username password request incoming) (sym sent) (identified rest u p shown e)

  requested-Leaves :
      (incoming : List ℕ) (u : Unit {0}) (w : Wire)
      → SettledAt username password incoming u w
      → Leaves
          (λ _ w'. Opened username password request incoming w')
          (λ w'. Transcript username password request incoming w'.sent)
          ((write_all request >>= λ _. read_exact 4 >>= read_reply) w)
  unfolding SettledAt
  requested-Leaves incoming u w (answers, settled, e) =
      let all = requested answers w.incoming settled e in
      let asked : (w' : Wire)
          → w'.sent ≡ w.sent ++ request ∷ []
          → Transcript username password request incoming w'.sent =
        λ w' s. subst (Transcript username password request incoming) (sym s) all in
      >>=-Leaves (write_all request) _ w (write_all-Leaves request w)
        (λ w' sent. asked w' (ap (λ (x : Wire). x.sent) sent))
        λ _ w' sent.
          let s = ap (λ (x : Wire). x.sent) sent in
          let i = ap (λ (x : Wire). x.incoming) sent in
          >>=-Leaves (read_exact 4) read_reply w' (read_exact-Leaves 4 w')
            (λ w'' same. asked w'' (same ∙ s))
            λ response w'' (read, size, same).
              Leaves-weaken (read_reply-Leaves response w'.incoming w'' size read)
                (λ _ v (reply, replied, exact, same'). record {
                  answers = answers;
                  reply = reply;
                  settled_sent = w.sent;
                  settled = settled;
                  replied = replied;
                  exactly = e ∙ ap (λ l. answers ++ l) (sym i ∙ exact);
                  writes = same' ∙ same ∙ s;
                })
                (λ v same'. asked v (same' ∙ same ∙ s))

  negotiate-Leaves :
      (w : Wire)
      → w.sent ≡ []
      → Leaves
          (λ _ w'. Opened username password request w.incoming w')
          (λ w'. Transcript username password request w.incoming w'.sent)
          (negotiate username password request w)
  unfolding negotiate
  negotiate-Leaves w fresh =
      let start : w.sent ++ greeting username ∷ [] ≡ greeting username ∷ [] =
        ap (λ l. l ++ greeting username ∷ []) fresh in
      let opening : (w' : Wire)
          → w'.sent ≡ greeting username ∷ []
          → Transcript username password request w.incoming w'.sent =
        λ w' s.
          subst (Transcript username password request w.incoming) (sym s)
            (greeting-Transcript username password request w.incoming) in
      >>=-Leaves (write_all (greeting username)) _ w (write_all-Leaves (greeting username) w)
        (λ w' sent. opening w' (ap (λ (x : Wire). x.sent) sent ∙ start))
        λ _ w' sent.
          let s = ap (λ (x : Wire). x.sent) sent ∙ start in
          let i = ap (λ (x : Wire). x.incoming) sent in
          >>=-Leaves (read_exact 2) _ w' (read_exact-Leaves 2 w')
            (λ w'' same. opening w'' (same ∙ s))
            λ method w'' (read, size, same).
              >>=-Leaves (select username password method) _ w''
                (select-Leaves username password w.incoming method w'' size (sym i ∙ read)
                  (same ∙ s))
                (λ v early. Early-Transcript w.incoming v early)
                (λ u v settled. requested-Leaves w.incoming u v settled)

  -- However the negotiation on a fresh connection ends, and whatever the proxy sends, what was
  -- handed to the connection is one of: the greeting; the greeting and the credentials, where a user
  -- and a password are configured and the proxy selected them; or the writes of a settled method and
  -- the request. The greeting is 05 01 02 with a user configured, which offers the credentials only,
  -- and 05 01 00 without one. With a user a method is settled only once the proxy has accepted the
  -- credentials, whose two texts stand behind their lengths of at most 255 bytes.
  pub negotiate-Transcript :
      (w : Wire)
      → w.sent ≡ []
      → Transcript username password request w.incoming
          (negotiate username password request w).1.sent
  negotiate-Transcript w fresh = Leaves-both (negotiate-Leaves w fresh) λ _ w' opened.
      subst (Transcript username password request w.incoming) (sym opened.writes)
        (requested opened.answers (opened.reply ++ w'.incoming) opened.settled opened.exactly)

connected-ok :
    (r : Result IoError (Unit {0}) × Wire) (w : Wire) → connected r ≡ ok w → r ≡ (ok tt, w)
connected-ok (ok u, v) w e = let same : v ≡ w = cc in ap (λ x. (ok tt, x)) same
connected-ok (err d, v) w e = cc
connected-ok (stuck, v) w e = cc

with_request-Opened :
    (proxy : Socks5Proxy) (password : Option (List ℕ)) (elapsed : Option ℕ)
    (made : Result IoError (List ℕ)) (w w' : Wire)
    → w.sent ≡ []
    → with_request proxy password elapsed (ok w) made ≡ ok w'
    → (request : List ℕ) × (made ≡ ok request)
      × Opened proxy.username password request w.incoming w'
with_request-Opened proxy password none (ok request) w w' fresh e =
    let r = negotiate proxy.username password request w in
    (
      request,
      refl,
      Leaves-ok (negotiate-Leaves proxy.username password request w fresh) (connected-ok r w' e),
    )
with_request-Opened proxy password (some seconds) (ok request) w w' fresh e = cc
with_request-Opened proxy password none (err d) w w' fresh e = cc
with_request-Opened proxy password (some seconds) (err d) w w' fresh e = cc
with_request-Opened proxy password none stuck w w' fresh e = cc
with_request-Opened proxy password (some seconds) stuck w w' fresh e = cc

-- A connection that is opened stands exactly behind the proxy's reply: the proxy settled a method,
-- without credentials only where no user is configured and otherwise by accepting the credentials,
-- answered the request with success, and nothing else was read or sent.
pub connect_socks5-Opened :
    (ip : IpParser) (proxy : Socks5Proxy) (password : Option (List ℕ)) (target_host : List ℕ)
    (target_port : ℕ) (elapsed : Option ℕ) (w w' : Wire)
    → w.sent ≡ []
    → connect_socks5 ip proxy password target_host target_port elapsed (ok w) ≡ ok w'
    → (request : List ℕ) × (socks5_connect_request ip target_host target_port ≡ ok request)
      × Opened proxy.username password request w.incoming w'
unfolding connect_socks5
connect_socks5-Opened ip proxy password target_host target_port elapsed w w' fresh e =
    with_request-Opened proxy password elapsed (socks5_connect_request ip target_host target_port) w
      w' fresh e
