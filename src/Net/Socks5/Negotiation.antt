-- ===== src/Net/Socks5/Negotiation.antt =====
-- `connect_socks5` of crates/open-sdbl-db/src/net/socks5.rs.
use open_sdbl.Prelude.{
  ℕ, ◌+◌, not, List, [], ◌∷◌, ◌++◌, Option, none, some, String, ltb, ◌==◌, if◌then◌else◌, codes,
  decimal, length, get_or,
}
use open_sdbl.Prelude.Result.{Result, ok, err, stuck}
use open_sdbl.Metadata.Utf8.Encode.{as_bytes}
use open_sdbl.Net.Socks5.Text.{hex_byte, IpParser}
use open_sdbl.Net.Socks5.Proxy.{Socks5Proxy, DbError, database}
use open_sdbl.Net.Socks5.Request.{
  permission_denied, invalid_input, invalid_data, unsupported, connection_refused, IoError,
  socks5_connect_request,
}
use open_sdbl.Net.Socks5.Wire.{Wire, Talk, pure, fail, ◌>>=◌, write_all, read_exact}

abbrev pub greeting : Option (List ℕ) → List ℕ
greeting (some username) = 0x05 ∷ (0x01 ∷ (0x02 ∷ []))
greeting none = 0x05 ∷ (0x01 ∷ (0x00 ∷ []))

abbrev pub credentials : List ℕ → List ℕ → List ℕ
credentials username password =
    (0x01 ∷ (length (as_bytes username) ∷ []))
    ++ as_bytes username
    ++ (length (as_bytes password) ∷ as_bytes password)

-- The `match` on the answer to the credentials
abbrev pub authenticated : List ℕ → Talk (Unit {0})
authenticated response =
    let version = get_or response 0 0 in
    if version == 0x01
    then (if get_or response 1 0 == 0x00
        then pure tt
        else fail permission_denied
            (codes "proxy rejected SOCKS5 username/password authentication"))
    else fail invalid_data
        (codes "proxy returned unexpected SOCKS5 authentication version 0x" ++ hex_byte version)

abbrev pub send_credentials : List ℕ → List ℕ → Talk (Unit {0})
send_credentials username password = do
  _ ← write_all (credentials username password)
  response ← read_exact 2
  authenticated response

abbrev pub authenticate : Option (List ℕ) → Option (List ℕ) → Talk (Unit {0})
authenticate none password =
    fail permission_denied (codes "proxy requires SOCKS5 username/password authentication")
authenticate (some username) none = fail permission_denied (codes "SOCKS5 password is unavailable")
authenticate (some username) (some password) =
    if ltb 255 (length (as_bytes username))
    then fail invalid_input (codes "SOCKS5 username is too long")
    else if ltb 255 (length (as_bytes password))
    then fail invalid_input (codes "SOCKS5 password is too long")
    else send_credentials username password

abbrev pub unauthenticated : Option (List ℕ) → Talk (Unit {0})
unauthenticated none = pure tt
unauthenticated (some username) =
    fail permission_denied
      (codes "proxy selected unauthenticated SOCKS5 access despite configured credentials")

-- The `match` on the method that the proxy selects
unfoldable pub select : Option (List ℕ) → Option (List ℕ) → List ℕ → Talk (Unit {0})
select username password method =
    let version = get_or method 0 0 in
    let selected = get_or method 1 0 in
    if not (version == 0x05)
    then fail invalid_data (codes "proxy returned unexpected SOCKS version 0x" ++ hex_byte version)
    else if selected == 0x00
    then unauthenticated username
    else if selected == 0x02
    then authenticate username password
    else if selected == 0xff
    then fail permission_denied (codes "proxy rejected unauthenticated SOCKS5 access")
    else fail unsupported
        (codes "proxy selected unsupported authentication method 0x" ++ hex_byte selected)

abbrev reply_reason : ℕ → String
reply_reason reply =
    if reply == 0x01
    then "general proxy failure"
    else if reply == 0x02
    then "connection not allowed by proxy rules"
    else if reply == 0x03
    then "network unreachable"
    else if reply == 0x04
    then "host unreachable"
    else if reply == 0x05
    then "connection refused"
    else if reply == 0x06
    then "TTL expired"
    else if reply == 0x07
    then "command not supported"
    else if reply == 0x08
    then "address type not supported"
    else "unknown proxy error"

abbrev pub socks5_reply_message : ℕ → List ℕ
socks5_reply_message reply =
    codes "proxy rejected CONNECT request: "
    ++ codes (reply_reason reply)
    ++ codes " (0x"
    ++ hex_byte reply
    ++ codes ")"

-- The guards on the reply
unfoldable pub check_reply : List ℕ → Talk (Unit {0})
check_reply response =
    if not (get_or response 0 0 == 0x05)
    then fail invalid_data
        (codes "proxy returned unexpected SOCKS version 0x" ++ hex_byte (get_or response 0 0))
    else if not (get_or response 1 0 == 0x00)
    then fail connection_refused (socks5_reply_message (get_or response 1 0))
    else if not (get_or response 2 0 == 0x00)
    then fail invalid_data (codes "proxy returned a malformed SOCKS5 response")
    else pure tt

abbrev pub first_byte : List ℕ → Talk ℕ
first_byte bytes = pure (get_or bytes 0 0)

-- `bound_address_len`
unfoldable pub bound_address_len : ℕ → Talk ℕ
bound_address_len address_type =
    let domain = read_exact 1 >>= first_byte in
    if address_type == 0x01
    then pure 4
    else if address_type == 0x03
    then domain
    else if address_type == 0x04
    then pure 16
    else fail invalid_data (codes "proxy returned unknown address type 0x" ++ hex_byte address_type)

abbrev pub skip_address : ℕ → Talk (Unit {0})
skip_address len = do _ ← read_exact (len + 2); pure tt

abbrev pub read_reply : List ℕ → Talk (Unit {0})
read_reply response = do
  _ ← check_reply response
  len ← bound_address_len (get_or response 3 0)
  skip_address len

-- The block `negotiation`, over a connection that is open
unfoldable pub negotiate : Option (List ℕ) → Option (List ℕ) → List ℕ → Talk (Unit {0})
negotiate username password request = do
  _ ← write_all (greeting username)
  method ← read_exact 2
  _ ← select username password method
  _ ← write_all request
  response ← read_exact 4
  read_reply response

-- `DbError::socks5_connection`
abbrev pub socks5_connection : List ℕ → DbError
socks5_connection error = database (codes "SOCKS5 proxy connection failed: " ++ error)

abbrev pub connected : Result IoError (Unit {0}) × Wire → Result DbError Wire
connected (ok u, w) = ok w
connected (err e, w) = err (socks5_connection e.message)
connected (stuck, w) = stuck

abbrev pub negotiated :
    Socks5Proxy → Option (List ℕ) → List ℕ → Result IoError Wire → Result DbError Wire
negotiated proxy password request (ok w) = connected (negotiate proxy.username password request w)
negotiated proxy password request (err e) = err (socks5_connection e.message)
negotiated proxy password request stuck = stuck

abbrev pub with_request :
    Socks5Proxy
    → Option (List ℕ)
    → Option ℕ
    → Result IoError Wire
    → Result IoError (List ℕ)
    → Result DbError Wire
with_request proxy password (some seconds) connection (ok request) =
    err (socks5_connection (codes "timed out after " ++ decimal seconds ++ codes " seconds"))
with_request proxy password none connection (ok request) =
    negotiated proxy password request connection
with_request proxy password elapsed connection (err e) = err (socks5_connection e.message)
with_request proxy password elapsed connection stuck = stuck

-- `connection` is what opening the connection to the proxy gives, and `elapsed` the limit in
-- seconds if it passes before the negotiation ends.
unfoldable pub connect_socks5 :
    IpParser
    → Socks5Proxy
    → Option (List ℕ)
    → List ℕ
    → ℕ
    → Option ℕ
    → Result IoError Wire
    → Result DbError Wire
connect_socks5 ip proxy password target_host target_port elapsed connection =
    with_request proxy password elapsed connection
      (socks5_connect_request ip target_host target_port)
