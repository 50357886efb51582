-- ===== src/Net/Socks5/Layout.antt =====
-- The layout of the request that crates/open-sdbl-db/src/net/socks5.rs sends, read as RFC 1928 says.
use open_sdbl.Prelude.{
  ℕ, ◌+◌, ◌*◌, ◌/◌, ◌%◌, ◌≤◌, ◌<◌, ◌≡◌, refl, ap, subst, ◌∙◌, false, List, [], ◌∷◌, ◌++◌, Option,
  none, some, ltb, ◌==◌, if◌then◌else◌, length, take, drop, take-append, arith,
}
use open_sdbl.Prelude.Result.{Result, ok, ◌>>=◌}
use open_sdbl.Metadata.Utf8.Encode.{as_bytes}
use open_sdbl.Net.Socks5.Text.{be_bytes, IpAddr, v4, v6, IpParser}
use open_sdbl.Net.Socks5.Request.{IoError, target, socks5_connect_request}

-- A type of address, its bytes, and a port
abbrev pub Destination : Type 0
Destination = ℕ × List ℕ × ℕ

abbrev pub decode_port : ℕ → List ℕ → List ℕ → Option Destination
decode_port kind address (a ∷ (b ∷ [])) = some (kind, address, a * 256 + b)
decode_port kind address bytes = none

-- The address behind its type
abbrev pub decode_address : ℕ → List ℕ → Option Destination
decode_address kind [] = none
decode_address kind (n ∷ rest) =
    if kind == 1
    then decode_port 1 (take 4 (n ∷ rest)) (drop 4 (n ∷ rest))
    else if kind == 3
    then decode_port 3 (take n rest) (drop n rest)
    else if kind == 4
    then decode_port 4 (take 16 (n ∷ rest)) (drop 16 (n ∷ rest))
    else none

-- A request to connect
unfoldable pub decode_request : List ℕ → Option Destination
decode_request (version ∷ (command ∷ (reserved ∷ (kind ∷ rest)))) =
    if version == 5
    then (if command == 1 then (if reserved == 0 then decode_address kind rest else none) else none)
    else none
decode_request bytes = none

-- Where a connection to a host should go: to the address that its text is, or else to its name.
abbrev pub destination : List ℕ → ℕ → Option IpAddr → Destination
destination host port (some (v4 octets)) = (1, octets, port)
destination host port (some (v6 octets)) = (4, octets, port)
destination host port none = (3, as_bytes host, port)

drop-append {ℓ} : {A : Type ℓ} (xs ys : List A) → drop (length xs) (xs ++ ys) ≡ ys
drop-append [] ys = refl
drop-append (x ∷ xs) ys = drop-append xs ys

decode_port-be_bytes :
    (kind port n : ℕ) (address : List ℕ)
    → port < 65536
    → length address ≡ n
    → decode_port kind (take n (address ++ be_bytes port)) (drop n (address ++ be_bytes port))
      ≡ some (kind, address, port)
decode_port-be_bytes kind port n address h size =
    let whole : port / 256 % 256 * 256 + port % 256 ≡ port = omega arith in
    subst
      (λ m.
        decode_port kind (take m (address ++ be_bytes port)) (drop m (address ++ be_bytes port))
        ≡ some (kind, address, port))
      size
      (ap (λ l. decode_port kind l (drop (length address) (address ++ be_bytes port)))
          (take-append address (be_bytes port))
        ∙ ap (decode_port kind address) (drop-append address (be_bytes port))
        ∙ ap (λ p. some (kind, address, p)) whole)

decode_address-v4 :
    (port : ℕ) (octets : List ℕ)
    → port < 65536
    → length octets ≡ 4
    → decode_address 1 (octets ++ be_bytes port) ≡ some (1, octets, port)
decode_address-v4 port [] h size = absurd (omega arith)
decode_address-v4 port (a ∷ rest) h size = decode_port-be_bytes 1 port 4 (a ∷ rest) h size

decode_address-v6 :
    (port : ℕ) (octets : List ℕ)
    → port < 65536
    → length octets ≡ 16
    → decode_address 4 (octets ++ be_bytes port) ≡ some (4, octets, port)
decode_address-v6 port [] h size = absurd (omega arith)
decode_address-v6 port (a ∷ rest) h size = decode_port-be_bytes 4 port 16 (a ∷ rest) h size

-- A request that the target fits
unfoldable Requests : Result IoError (List ℕ) → Destination → Type 0
Requests made to = (bytes : List ℕ) × (made ≡ ok bytes) × (decode_request bytes ≡ some to)

target-Requests :
    (host : List ℕ) (port : ℕ) (address : Option IpAddr)
    → port < 65536
    → ((octets : List ℕ) → address ≡ some (v4 octets) → length octets ≡ 4)
    → ((octets : List ℕ) → address ≡ some (v6 octets) → length octets ≡ 16)
    → (address ≡ none → length (as_bytes host) ≤ 255)
    → Requests
        (target host address >>= λ a. ok ((0x05 ∷ (0x01 ∷ (0x00 ∷ []))) ++ a ++ be_bytes port))
        (destination host port address)
unfolding Requests decode_request
target-Requests host port (some (v4 octets)) h four sixteen fits = (
  (0x05 ∷ (0x01 ∷ (0x00 ∷ []))) ++ (0x01 ∷ octets) ++ be_bytes port,
  refl,
  decode_address-v4 port octets h (four octets refl),
)
target-Requests host port (some (v6 octets)) h four sixteen fits = (
  (0x05 ∷ (0x01 ∷ (0x00 ∷ []))) ++ (0x04 ∷ octets) ++ be_bytes port,
  refl,
  decode_address-v6 port octets h (sixteen octets refl),
)
target-Requests host port none h four sixteen fits =
    let name = as_bytes host in
    let few : ltb 255 (length name) ≡ false = let short = fits refl in ground arith in
    (
      (0x05 ∷ (0x01 ∷ (0x00 ∷ []))) ++ (0x03 ∷ (length name ∷ name)) ++ be_bytes port,
      rw few refl,
      decode_port-be_bytes 3 port (length name) name h refl,
    )

-- A request to connect is made for every port and for every host that is an address or whose name
-- has at most 255 bytes, and read as RFC 1928 lays it out it names that host and that port.
pub socks5_connect_request-decode_request :
    (ip : IpParser) (target_host : List ℕ) (target_port : ℕ)
    → target_port < 65536
    → (ip.parse target_host ≡ none → length (as_bytes target_host) ≤ 255)
    → (bytes : List ℕ) × (socks5_connect_request ip target_host target_port ≡ ok bytes)
      × (decode_request bytes ≡ some (destination target_host target_port (ip.parse target_host)))
unfolding socks5_connect_request Requests
socks5_connect_request-decode_request ip target_host target_port h fits =
    target-Requests target_host target_port (ip.parse target_host) h (ip.v4_octets target_host)
      (ip.v6_octets target_host) fits
