-- ===== src/Net/Socks5/Proxy.antt =====
-- `parse_socks5_proxy` and `socks5_password` of crates/open-sdbl-db/src/net/socks5.rs.
use open_sdbl.Prelude.{
  ℕ, Bool, true, false, not, ◌&&◌, List, [], ◌∷◌, ◌++◌, Option, none, some, String, ltb, ◌==◌,
  if◌then◌else◌, codes,
}
use open_sdbl.Prelude.Result.{Result, ok, err, ◌>>=◌}
use open_sdbl.Lexer.Chars.{byte_length}
use open_sdbl.Lexer.Lookup.{chars_eq}
use open_sdbl.Metadata.Value.Parse.{trim_start, trim_end}
use open_sdbl.Net.Socks5.Text.{has, rsplit_once, split_once, parse_u16, IpAddr, v4, v6, IpParser}

pub record Socks5Proxy : Type 0 where
  pub host : List ℕ
  pub port : ℕ
  pub username : Option (List ℕ)

-- `EnvironmentSecret` of crates/open-sdbl-db/src/credentials.rs
pub data EnvironmentSecret : Type 0 where
  missing invalid_unicode : EnvironmentSecret
  present : List ℕ → EnvironmentSecret

-- `DbError` of crates/open-sdbl-db/src/error.rs, as far as the transport gives it
pub data DbError : Type 0 where
  data_error database : List ℕ → DbError

abbrev pub Address : Type 0
Address = Result String (List ℕ × List ℕ)

-- In brackets only an address of version 6 may stand.
abbrev bracketed_host : List ℕ × List ℕ → Option IpAddr → Address
bracketed_host (host, port) (some (v6 octets)) = ok (host, port)
bracketed_host (host, port) (some (v4 octets)) =
    err "brackets are only valid around an IPv6 address"
bracketed_host (host, port) none = err "brackets are only valid around an IPv6 address"

abbrev pub bracketed : IpParser → Option (List ℕ × List ℕ) → Address
bracketed ip none = err "expected [IPv6]:PORT"
bracketed ip (some (host, port)) = bracketed_host (host, port) (ip.parse host)

abbrev pub plain : Option (List ℕ × List ℕ) → Address
plain none = err "expected HOST:PORT"
plain (some (host, port)) =
    if has b':' host then err "IPv6 addresses must be enclosed in brackets" else ok (host, port)

-- The `if let` that tells the two forms apart
abbrev pub host_and_port : IpParser → List ℕ → Address
host_and_port ip [] = plain (rsplit_once b':' [])
host_and_port ip (c ∷ cs) =
    if c == b'[' then bracketed ip (split_once b']' b':' cs) else plain (rsplit_once b':' (c ∷ cs))

abbrev is_empty : List ℕ → Bool
is_empty [] = true
is_empty (c ∷ cs) = false

abbrev pub port_of : List ℕ → Option ℕ → Result String Socks5Proxy
port_of host none = err "port must be an integer from 1 to 65535"
port_of host (some port) =
    if port == 0
    then err "port must be an integer from 1 to 65535"
    else ok (record { host = host; port = port; username = none })

abbrev pub is_bare : List ℕ → Bool
is_bare host = not (is_empty host) && chars_eq (trim_end (trim_start host)) host

abbrev pub checked : List ℕ × List ℕ → Result String Socks5Proxy
checked (host, port) =
    if not (is_bare host)
    then err "host must not be empty or contain surrounding whitespace"
    else port_of host (parse_u16 port)

unfoldable pub parse_socks5_proxy : IpParser → List ℕ → Result String Socks5Proxy
parse_socks5_proxy ip value = host_and_port ip value >>= checked

-- `EnvironmentSecret::optional` and `required`
abbrev pub optional : EnvironmentSecret → List ℕ → Result DbError (Option (List ℕ))
optional missing name = ok none
optional invalid_unicode name = err (data_error (name ++ codes " is not valid UTF-8"))
optional (present value) name = ok (some value)

abbrev or_required : List ℕ → Option (List ℕ) → Result DbError (List ℕ)
or_required name (some value) = ok value
or_required name none =
    err (data_error (name ++ codes " is required for the selected authentication method"))

abbrev pub required : EnvironmentSecret → List ℕ → Result DbError (List ℕ)
required secret name = optional secret name >>= or_required name

-- The guard on both credentials: from 1 to 255 bytes
abbrev pub fits_field : List ℕ → Bool
fits_field text = not (is_empty text) && not (ltb 255 (byte_length text))

abbrev password_for : EnvironmentSecret → Option (List ℕ) → Result DbError (Option (List ℕ))
password_for environment none = ok none
password_for environment (some username) =
    if not (fits_field username)
    then err (data_error (codes "SOCKS5 username must contain from 1 to 255 bytes"))
    else (required environment (codes "SOCKS5_PASSWORD") >>= λ password.
        if not (fits_field password)
        then err (data_error (codes "SOCKS5_PASSWORD must contain from 1 to 255 bytes"))
        else ok (some password))

abbrev username_of : Option Socks5Proxy → Option (List ℕ)
username_of none = none
username_of (some proxy) = proxy.username

unfoldable pub socks5_password :
    Option Socks5Proxy → EnvironmentSecret → Result DbError (Option (List ℕ))
socks5_password proxy environment = password_for environment (username_of proxy)
