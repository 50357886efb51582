-- ===== src/Prelude/Decimal.antt =====
-- `Display` of an unsigned number.
use Prim.Native.Nat.{ℕ, zero, suc, ◌+◌, ◌/◌, ◌%◌}
use mathlib.Core.List.{List, [], ◌∷◌, ◌++◌}
use open_sdbl.Prelude.Tests.{ltb, if◌then◌else◌}

-- A number of 64 bits has 20 digits at most.
unfoldable pub decimal_within : ℕ → ℕ → List ℕ
decimal_within zero n = []
decimal_within (suc fuel) n =
    let front = decimal_within fuel (n / 10) in
    (if ltb n 10 then [] else front) ++ ((b'0' + n % 10) ∷ [])

unfoldable pub decimal : ℕ → List ℕ
unfolding decimal_within
decimal n = decimal_within 20 n
