-- ===== src/Net/Socks5/Request.antt =====
-- `socks5_connect_request` of crates/open-sdbl-db/src/net/socks5.rs.
use open_sdbl.Prelude.{
  ℕ, List, [], ◌∷◌, ◌++◌, Option, none, some, ltb, if◌then◌else◌, codes, length,
}
use open_sdbl.Prelude.Result.{Result, ok, err, ◌>>=◌}
use open_sdbl.Metadata.Utf8.Encode.{as_bytes}
use open_sdbl.Net.Socks5.Text.{be_bytes, IpAddr, v4, v6, IpParser}

pub data IoErrorKind : Type 0 where
  permission_denied invalid_input invalid_data unsupported connection_refused : IoErrorKind
  -- A failure of the connection itself
  network : IoErrorKind

pub record IoError : Type 0 where
  pub kind : IoErrorKind
  pub message : List ℕ

abbrev pub io_error : IoErrorKind → List ℕ → IoError
io_error kind message = record { kind = kind; message = message }

-- The type and the address of the target
abbrev pub target : List ℕ → Option IpAddr → Result IoError (List ℕ)
target host (some (v4 octets)) = ok (0x01 ∷ octets)
target host (some (v6 octets)) = ok (0x04 ∷ octets)
target host none =
    if ltb 255 (length (as_bytes host))
    then err (io_error invalid_input (codes "PostgreSQL hostname is too long for SOCKS5"))
    else ok (0x03 ∷ (length (as_bytes host) ∷ as_bytes host))

unfoldable pub socks5_connect_request : IpParser → List ℕ → ℕ → Result IoError (List ℕ)
socks5_connect_request ip target_host target_port =
    target target_host (ip.parse target_host) >>= λ address.
    ok ((0x05 ∷ (0x01 ∷ (0x00 ∷ []))) ++ address ++ be_bytes target_port)
