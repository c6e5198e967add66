-- ===== src/Prelude/Decimal.antt =====
-- `std::to_string` and `operator<<` of an unsigned integer: its decimal digits.
use smart_sensor_network.Prelude.Tests.{ltb, if◌then◌else◌}
use smart_sensor_network.Prelude.Lists.{Bytes}
use Prim.Native.Nat.{ℕ, zero, suc, ◌+◌, ◌/◌, ◌%◌}
use mathlib.Core.List.{[], ◌∷◌, ◌++◌}

-- With fuel for the digits; `n + 1` rounds are more than a number has digits.
unfoldable pub decimal_fuel : ℕ → ℕ → Bytes
decimal_fuel zero n = []
decimal_fuel (suc fuel) n =
    let front = decimal_fuel fuel (n / 10) in
    if ltb n 10 then (b'0' + n) ∷ [] else front ++ ((b'0' + n % 10) ∷ [])

unfoldable pub decimal : ℕ → Bytes
unfolding decimal_fuel
decimal n = decimal_fuel (n + 1) n
