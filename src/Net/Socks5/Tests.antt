-- ===== src/Net/Socks5/Tests.antt =====
-- Conversations of crates/open-sdbl-db/src/net/socks5.rs.
use open_sdbl.Prelude.{
  ℕ, ◌≤◌, ◌≡◌, refl, true, List, [], ◌∷◌, ◌++◌, none, some, codes, length, decimal, arith,
}
use open_sdbl.Prelude.Result.{ok, err}
use open_sdbl.Lexer.Chars.{is_whitespace}
use open_sdbl.Lexer.Lookup.{chars_eq}
use open_sdbl.Metadata.Value.Parse.{trim_start, trim_end}
use open_sdbl.Metadata.Utf8.Encode.{as_bytes}
use open_sdbl.Net.Socks5.Text.{rsplit_once, digits_value, parse_u16, IpParser}
use open_sdbl.Net.Socks5.Proxy.{
  Socks5Proxy, EnvironmentSecret, is_bare, parse_socks5_proxy, socks5_password,
}
use open_sdbl.Net.Socks5.Request.{io_error, network, socks5_connect_request}
use open_sdbl.Net.Socks5.Wire.{Wire, ◌>>=◌, write_all, read_exact}
use open_sdbl.Net.Socks5.Negotiation.{
  select, check_reply, bound_address_len, negotiate, connect_socks5,
}
use open_sdbl.Net.Socks5.Conversation.{Transcript, Opened}
use open_sdbl.Net.Socks5.Negotiated.{negotiate-Transcript, connect_socks5-Opened}
use open_sdbl.Net.Socks5.Layout.{decode_request, socks5_connect_request-decode_request}
use open_sdbl.Net.Socks5.Shown.{parse_socks5_proxy-decimal}

-- A parser that takes no text for an address
abbrev no_addresses : IpParser
no_addresses = record {
  parse = λ text. none;
  v4_octets = λ text octets e. cc;
  v6_octets = λ text octets e. cc;
}

abbrev wire : List ℕ → List (List ℕ) → Wire
wire incoming sent = record {
  incoming = incoming;
  ending = io_error network (codes "early eof");
  write_fault = λ n. none;
  sent = sent;
}

abbrev with_user : Socks5Proxy
with_user = record { host = codes "proxy"; port = 1080; username = some (codes "me") }

-- The proxy takes the credentials, opens the connection, and the server behind it says 9.
abbrev granting : List ℕ
granting =
    5 ∷ (2 ∷ (1 ∷ (0 ∷ (5 ∷ (0 ∷ (0 ∷ (1 ∷ (127 ∷ (0 ∷ (0 ∷ (1 ∷ (18 ∷ (52 ∷ (9 ∷ []))))))))))))))

abbrev asked_for_db : List (List ℕ)
asked_for_db =
    (5 ∷ (1 ∷ (2 ∷ [])))
    ∷ ((1 ∷ (2 ∷ (b'm' ∷ (b'e' ∷ (1 ∷ (b'x' ∷ []))))))
        ∷ ((5 ∷ (1 ∷ (0 ∷ (3 ∷ (2 ∷ (b'd' ∷ (b'b' ∷ (0x15 ∷ (0x38 ∷ []))))))))) ∷ []))

connect_run :
    connect_socks5 no_addresses with_user
      (some (codes "x"))
      (codes "db")
      5432
      none
      (ok (wire granting []))
    ≡ ok (wire (9 ∷ []) asked_for_db)
unfolding as_bytes socks5_connect_request ◌>>=◌ write_all read_exact select check_reply
    bound_address_len negotiate connect_socks5
connect_run = refl

-- The proxy selects access without the credentials that are configured.
downgrade_run :
    (negotiate (some (codes "me")) (some (codes "x")) [] (wire (5 ∷ (0 ∷ [])) [])).1.sent
    ≡ (5 ∷ (1 ∷ (2 ∷ []))) ∷ []
unfolding as_bytes ◌>>=◌ write_all read_exact select negotiate
downgrade_run = refl

proxy_run :
    parse_socks5_proxy no_addresses (codes "proxy.example:1080")
    ≡ ok (record { host = codes "proxy.example"; port = 1080; username = none })
unfolding parse_socks5_proxy rsplit_once digits_value parse_u16 trim_start trim_end is_whitespace
    chars_eq
proxy_run = refl

no_port_run :
    parse_socks5_proxy no_addresses (codes "proxy.example:0")
    ≡ err "port must be an integer from 1 to 65535"
unfolding parse_socks5_proxy rsplit_once digits_value parse_u16 trim_start trim_end is_whitespace
    chars_eq
no_port_run = refl

bare_address_run :
    parse_socks5_proxy no_addresses (codes "2001:db8::1:1080")
    ≡ err "IPv6 addresses must be enclosed in brackets"
unfolding parse_socks5_proxy rsplit_once
bare_address_run = refl

password_run :
    socks5_password (some with_user) (EnvironmentSecret.present (codes "x")) ≡ ok (some (codes "x"))
unfolding socks5_password
password_run = refl

negotiate-Transcript_example :
    Transcript
      (some (codes "me"))
      (some (codes "x"))
      (7 ∷ [])
      (5 ∷ (2 ∷ []))
      (negotiate (some (codes "me")) (some (codes "x")) (7 ∷ []) (wire (5 ∷ (2 ∷ [])) [])).1.sent
negotiate-Transcript_example =
    negotiate-Transcript (some (codes "me")) (some (codes "x")) (7 ∷ []) (wire (5 ∷ (2 ∷ [])) [])
      refl

connect_socks5-Opened_example :
    (request : List ℕ) × (socks5_connect_request no_addresses (codes "db") 5432 ≡ ok request)
    × Opened (some (codes "me")) (some (codes "x")) request granting (wire (9 ∷ []) asked_for_db)
connect_socks5-Opened_example =
    connect_socks5-Opened no_addresses with_user (some (codes "x")) (codes "db") 5432 none
      (wire granting []) (wire (9 ∷ []) asked_for_db) refl connect_run

name_fits : length (as_bytes (codes "db")) ≤ 255
unfolding as_bytes
name_fits = omega arith

socks5_connect_request-decode_request_example :
    (bytes : List ℕ) × (socks5_connect_request no_addresses (codes "db") 5432 ≡ ok bytes)
    × (decode_request bytes ≡ some (3, as_bytes (codes "db"), 5432))
socks5_connect_request-decode_request_example =
    socks5_connect_request-decode_request no_addresses (codes "db") 5432 (omega arith)
      (λ _. name_fits)

is_bare_run : is_bare (codes "proxy.example") ≡ true
unfolding trim_start trim_end is_whitespace chars_eq
is_bare_run = refl

parse_socks5_proxy-decimal_example :
    parse_socks5_proxy no_addresses (codes "proxy.example" ++ b':' ∷ decimal 1080)
    ≡ ok (record { host = codes "proxy.example"; port = 1080; username = none })
parse_socks5_proxy-decimal_example =
    parse_socks5_proxy-decimal no_addresses (codes "proxy.example") 1080 is_bare_run refl refl
      (omega arith) (omega arith)
