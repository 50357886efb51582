-- ===== src/Net/Socks5/Shown.antt =====
-- The addresses of a proxy that crates/open-sdbl-db/src/net/socks5.rs accepts.
use open_sdbl.Prelude.{
  ℕ, suc, ◌+◌, ◌-◌, ◌*◌, ◌/◌, ◌%◌, ◌≤◌, ◌<◌, ◌≡◌, refl, sym, ap, subst, ◌∙◌, true, false, not, ◌&&◌,
  List, [], ◌∷◌, ◌++◌, none, some, ltb, leb, ◌==◌, if◌then◌else◌, if_elim, Bool-cases, inl, inr,
  decimal, decimal_within, arith,
}
use open_sdbl.Prelude.Result.{ok, err, ◌>>=◌}
use open_sdbl.Net.Socks5.Text.{has, begin_with, rsplit_once, digits_value, parse_u16, IpParser}
use open_sdbl.Net.Socks5.Proxy.{plain, host_and_port, is_bare, port_of, checked, parse_socks5_proxy}

has-append : (c : ℕ) (xs ys : List ℕ) → has c (xs ++ c ∷ ys) ≡ true
has-append c [] ys = ground arith
has-append c (x ∷ xs) ys = let rest = has-append c xs ys in ground arith

rsplit_once-append :
    (c : ℕ) (xs ys : List ℕ) → has c ys ≡ false → rsplit_once c (xs ++ c ∷ ys) ≡ some (xs, ys)
unfolding rsplit_once
rsplit_once-append c [] ys h = let same : (c == c) ≡ true = ground arith in rw (h, same) refl
rsplit_once-append c (x ∷ xs) ys h =
    rw (has-append c xs ys) (ap (begin_with x) (rsplit_once-append c xs ys h))

digits_value-digit :
    (m d : ℕ) → d < 10 → m * 10 + d ≤ 0xffff → digits_value m ((b'0' + d) ∷ []) ≡ some (m * 10 + d)
unfolding digits_value
digits_value-digit m d h k =
    let digit : b'0' + d - b'0' ≡ d = omega arith in
    let low : leb b'0' (b'0' + d) ≡ true = ground arith in
    let high : leb (b'0' + d) b'9' ≡ true = ground arith in
    let fits : leb (m * 10 + d) 0xffff ≡ true = ground arith in rw (digit, low, high, fits) refl

-- What a digit at the head contributes
digits_value-cons :
    (m c v : ℕ) (cs : List ℕ)
    → digits_value m (c ∷ cs) ≡ some v
    → ((leb b'0' c && leb c b'9' && leb (m * 10 + (c - b'0')) 0xffff) ≡ true)
      × (digits_value (m * 10 + (c - b'0')) cs ≡ some v)
unfolding digits_value
digits_value-cons m c v cs =
    let test = leb b'0' c && leb c b'9' && leb (m * 10 + (c - b'0')) 0xffff in
    let rest = digits_value (m * 10 + (c - b'0')) cs in
    if_elim (λ r. r ≡ some v → (test ≡ true) × (rest ≡ some v)) test rest none (λ t e. (t, e))
      (λ _ e. cc)

digits_value-snoc :
    (m d v : ℕ) (xs : List ℕ)
    → digits_value m xs ≡ some v
    → d < 10
    → v * 10 + d ≤ 0xffff
    → digits_value m (xs ++ (b'0' + d) ∷ []) ≡ some (v * 10 + d)
unfolding digits_value
digits_value-snoc m d v [] e h k =
    let same : m ≡ v = cc in
    subst (λ n. digits_value n ((b'0' + d) ∷ []) ≡ some (v * 10 + d)) (sym same)
      (digits_value-digit v d h k)
digits_value-snoc m d v (c ∷ cs) e h k =
    let (test, rest) = digits_value-cons m c v cs e in
    rw test (digits_value-snoc (m * 10 + (c - b'0')) d v cs rest h k)

digits_value-has : (m v : ℕ) (xs : List ℕ) → digits_value m xs ≡ some v → has b':' xs ≡ false
digits_value-has m v [] e = refl
digits_value-has m v (c ∷ cs) e =
    let (test, rest) = digits_value-cons m c v cs e in
    let later = digits_value-has (m * 10 + (c - b'0')) v cs rest in ground arith

-- The digits of a number that fits 16 bits have its value.
decimal_within-last : (fuel n : ℕ) → n < 10 → digits_value 0 (decimal_within (suc fuel) n) ≡ some n
unfolding decimal_within
decimal_within-last fuel n h =
    let small : ltb n 10 ≡ true = ground arith in
    let own : n % 10 ≡ n = omega arith in
    let whole : 0 * 10 + n ≡ n = omega arith in
    rw (small, own) (digits_value-digit 0 n h (omega arith) ∙ ap some whole)

decimal_within-more :
    (fuel n : ℕ)
    → 10 ≤ n
    → n ≤ 0xffff
    → digits_value 0 (decimal_within fuel (n / 10)) ≡ some (n / 10)
    → digits_value 0 (decimal_within (suc fuel) n) ≡ some n
unfolding decimal_within
decimal_within-more fuel n h k e =
    let large : ltb n 10 ≡ false = ground arith in
    let whole : n / 10 * 10 + n % 10 ≡ n = omega arith in
    rw large (
      digits_value-snoc 0 (n % 10) (n / 10) (decimal_within fuel (n / 10)) e (omega arith)
        (omega arith)
      ∙ ap some whole)

decimal_within-value :
    (fuel n : ℕ)
    → n ≤ 0xffff
    → (10 ≤ n → digits_value 0 (decimal_within fuel (n / 10)) ≡ some (n / 10))
    → digits_value 0 (decimal_within (suc fuel) n) ≡ some n
decimal_within-value fuel n h front = elim (Bool-cases (leb 10 n)) [
  | inl more ↦ let large : 10 ≤ n = ground arith in decimal_within-more fuel n large h (front large)
  | inr last ↦ decimal_within-last fuel n (ground arith)
]

decimal-value : (n : ℕ) → n ≤ 0xffff → digits_value 0 (decimal n) ≡ some n
unfolding decimal
decimal-value n h = decimal_within-value 19 n h λ _.
    decimal_within-value 18 (n / 10) (omega arith) λ _.
      decimal_within-value 17 (n / 10 / 10) (omega arith) λ _.
        decimal_within-value 16 (n / 10 / 10 / 10) (omega arith) λ _.
          decimal_within-value 15 (n / 10 / 10 / 10 / 10) (omega arith) λ k. absurd (omega arith)

parse_u16-digits :
    (xs : List ℕ) (v : ℕ) → 1 ≤ v → digits_value 0 xs ≡ some v → parse_u16 xs ≡ some v
unfolding parse_u16 digits_value
parse_u16-digits [] v h e = let zero_value : 0 ≡ v = cc in absurd (omega arith)
parse_u16-digits (c ∷ cs) v h e =
    let (test, rest) = digits_value-cons 0 c v cs e in
    let digit : (c == b'+') ≡ false = ground arith in rw digit e

host_and_port-plain :
    (ip : IpParser) (host port : List ℕ)
    → is_bare host ≡ true
    → has b'[' host ≡ false
    → host_and_port ip (host ++ b':' ∷ port) ≡ plain (rsplit_once b':' (host ++ b':' ∷ port))
host_and_port-plain ip [] port h k = cc
host_and_port-plain ip (c ∷ cs) port h k =
    let first : (c == b'[') ≡ false = ground arith in rw first refl

-- The address of a host and a port is read as that host and that port, with no user, for every port
-- from 1 to 65535 and every host that is not empty, has no white space around it, and holds neither a
-- colon nor an opening bracket.
pub parse_socks5_proxy-decimal :
    (ip : IpParser) (host : List ℕ) (port : ℕ)
    → is_bare host ≡ true
    → has b':' host ≡ false
    → has b'[' host ≡ false
    → 1 ≤ port
    → port ≤ 0xffff
    → parse_socks5_proxy ip (host ++ b':' ∷ decimal port)
      ≡ ok (record { host = host; port = port; username = none })
unfolding parse_socks5_proxy
parse_socks5_proxy-decimal ip host port bare no_colon no_bracket low high =
    let value = decimal-value port high in
    let split =
      rsplit_once-append b':' host (decimal port) (digits_value-has 0 port (decimal port) value) in
    let number = parse_u16-digits (decimal port) port low value in
    let some_port : (port == 0) ≡ false = ground arith in
    ap (λ a. a >>= checked)
      (host_and_port-plain ip host (decimal port) bare no_bracket
        ∙ ap plain split
        ∙ ap
            (λ b.
              if b
              then err "IPv6 addresses must be enclosed in brackets"
              else ok (host, decimal port))
            no_colon)
    ∙ ap
        (λ b.
          if not b
          then err "host must not be empty or contain surrounding whitespace"
          else port_of host (parse_u16 (decimal port)))
        bare
    ∙ ap (port_of host) number
    ∙ ap
        (λ b.
          if b
          then err "port must be an integer from 1 to 65535"
          else ok (record { host = host; port = port; username = none }))
        some_port
