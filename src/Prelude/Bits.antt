-- ===== src/Prelude/Bits.antt =====
-- Laws of `bit_and` and `bit_or` at variables: a mask of ones is a remainder, and an `or` of bits
-- that do not overlap is a sum. All follow from the digit recursion of the native operations.
use Prim.Native.Nat.{
  ℕ, zero, suc, ◌+◌, ◌-◌, ◌*◌, ◌/◌, ◌%◌, ◌^◌, ◌≤◌, ◌<◌, min, max, bit_and, bit_or, digits,
  bit_and-bitwise, bit_or-bitwise,
}
use mathlib.Core.Path.{◌≡◌, refl}
use native.Mathlib.Omega.{arith}
use native.Mathlib.Nat.{two-pow-succ, one-le-pow, div-add-mod, div-div-eq-div-mul}

module _ (z : ℕ → ℕ) (f : ℕ → ℕ → ℕ) where
  -- The number of digits to go does not matter once it covers the first number.
  digits_fuel : (n m a b : ℕ) → a ≤ n → a ≤ m → digits z f n a b ≡ digits z f m a b
  digits_fuel zero zero a b p q = refl
  digits_fuel (suc n) zero zero b p q = refl
  digits_fuel zero (suc m) zero b p q = refl
  digits_fuel (suc n) (suc m) zero b p q = refl
  digits_fuel (suc n) (suc m) (suc a) b p q =
      omega (arith, digits_fuel n m (suc a / 2) (b / 2) (omega arith) (omega arith))
  digits_fuel _ _ (suc a) b p q = absurd (omega arith)

bit_and_step : (a b : ℕ) → bit_and a b ≡ bit_and (a / 2) (b / 2) * 2 + min (a % 2) (b % 2)
bit_and_step zero b = omega (arith, bit_and-bitwise 0 b, bit_and-bitwise 0 (b / 2))
bit_and_step (suc a) b =
    let half = suc a / 2 in
    let fuel = digits_fuel (λ _. 0) min a half half (b / 2) (omega arith) (omega arith) in
    omega (arith, bit_and-bitwise (suc a) b, bit_and-bitwise half (b / 2), fuel)

bit_or_step : (a b : ℕ) → bit_or a b ≡ bit_or (a / 2) (b / 2) * 2 + max (a % 2) (b % 2)
bit_or_step zero b = omega (arith, bit_or-bitwise 0 b, bit_or-bitwise 0 (b / 2))
bit_or_step (suc a) b =
    let half = suc a / 2 in
    let fuel = digits_fuel (λ d. d) max a half half (b / 2) (omega arith) (omega arith) in
    omega (arith, bit_or-bitwise (suc a) b, bit_or-bitwise half (b / 2), fuel)

bit_and_zero_fuel : (n a : ℕ) → a ≤ n → bit_and a 0 ≡ 0
bit_and_zero_fuel n zero h = bit_and-bitwise 0 0
bit_and_zero_fuel zero (suc a) h = absurd (omega arith)
bit_and_zero_fuel (suc n) (suc a) h =
    omega (arith, bit_and_step (suc a) 0, bit_and_zero_fuel n (suc a / 2) (omega arith))

bit_or_zero_fuel : (n a : ℕ) → a ≤ n → bit_or a 0 ≡ a
bit_or_zero_fuel n zero h = bit_or-bitwise 0 0
bit_or_zero_fuel zero (suc a) h = absurd (omega arith)
bit_or_zero_fuel (suc n) (suc a) h =
    omega (arith, bit_or_step (suc a) 0, bit_or_zero_fuel n (suc a / 2) (omega arith))

pub bit_or-zero : (a : ℕ) → bit_or a 0 ≡ a
bit_or-zero a = bit_or_zero_fuel a a (omega arith)

ones_half : (p : ℕ) → 1 ≤ p → ((p + p - 1) / 2 ≡ p - 1) × ((p + p - 1) % 2 ≡ 1)
ones_half p h = omega arith

mod_double : (a p : ℕ) → 1 ≤ p → a % (p + p) ≡ a / 2 % p * 2 + a % 2
mod_double a p h =
    let whole = div-add-mod a (p + p) in
    let same : 2 * p ≡ p + p = omega arith in
    let nested = rw same at (div-div-eq-div-mul a 2 p) in
    let half = div-add-mod (a / 2) p in grind (arith, whole, nested, half)

-- `x & ((1 << k) - 1)` keeps the `k` low bits.
pub bit_and-ones : (k a : ℕ) → bit_and a (2 ^ k - 1) ≡ a % 2 ^ k
bit_and-ones zero a = omega (arith, bit_and_zero_fuel a a (omega arith))
bit_and-ones (suc k) a =
    let pos = one-le-pow k 2 (omega arith) in
    let half = ones_half (2 ^ k) pos in
    rw (two-pow-succ k, bit_and_step a (2 ^ k + 2 ^ k - 1), half.0, half.1, bit_and-ones k (a / 2))
      (omega (arith, mod_double a (2 ^ k) pos))

double_halves : (high p : ℕ) → (high * (p + p) / 2 ≡ high * p) × (high * (p + p) % 2 ≡ 0)
double_halves high p = omega arith

-- `low | (high << k)` where `low` has `k` bits at most.
pub bit_or-shifted : (k low high : ℕ) → low < 2 ^ k → bit_or low (high * 2 ^ k) ≡ low + high * 2 ^ k
bit_or-shifted zero zero high h = omega (arith, bit_or-bitwise 0 (high * 1))
bit_or-shifted zero (suc low) high h = absurd (omega arith)
bit_or-shifted (suc k) low high h =
    let halves = double_halves high (2 ^ k) in
    let below : low / 2 < 2 ^ k = omega (arith, two-pow-succ k) in
    rw
      (
        two-pow-succ k,
        bit_or_step low (high * (2 ^ k + 2 ^ k)),
        halves.0,
        halves.1,
        bit_or-shifted k (low / 2) high below,
      )
      (omega arith)

double_half : (x : ℕ) → x * 2 / 2 ≡ x
double_half x = omega arith

-- `(x << 1) | b` for a bit `b`.
pub bit_or-low_bit : (x b : ℕ) → b < 2 → bit_or (x * 2) b ≡ x * 2 + b
bit_or-low_bit x b h =
    let none_left : b / 2 ≡ 0 = omega arith in
    rw (bit_or_step (x * 2) b, double_half x, none_left, bit_or-zero x) (omega arith)
